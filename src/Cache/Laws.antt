-- ===== src/Cache/Laws.antt =====
-- What a reader of the cache sees after each of its methods.
use tetra_host.Prelude.{
  ℕ, String, ◌≡◌, ◌≤◌, ◌+◌, ◌==◌, refl, Option, none, some, leb, if◌then◌else◌, arith, eq_iff,
  Option-cases, Bool, Bool-cases, inl, inr,
}
use tetra_host.Prelude.Dict
use tetra_host.Prelude.Dict.{get-pop, get-put}
use tetra_host.Cache.{CacheEntry, TtlCache, get, set, delete, or_make, get_or_set, view}

module _ {ℓ} {V : Type ℓ} where
  abbrev live : ℕ → Option (CacheEntry V) → Option V
  live now none = none
  live now (some entry) = if leb entry.expires_at now then none else some entry.value

  pub view_entry :
      (key : String) (now : ℕ) (c : TtlCache V) → view key now c ≡ live now (Dict.get key c)
  unfolding get
  view_entry key now c = ground arith

  -- A value is served to the readers of its key until its time to live has passed, and to nobody
  -- else; the other keys are served what they were.
  pub view-set :
      (key other : String) (v : V) (ttl now later : ℕ) (c : TtlCache V)
      → view other later (set key v ttl now c) ≡ (
          if key == other
          then if leb (now + ttl) later then none else some v
          else view other later c)
  unfolding set
  view-set key other v ttl now later c = rw view_entry (rw view_entry (rw get-put (ground arith)))

  -- A deleted key is served nothing; the others are served what they were.
  pub view-delete :
      (key other : String) (now : ℕ) (c : TtlCache V)
      → view other now (delete key c) ≡ (if key == other then none else view other now c)
  unfolding delete
  view-delete key other now c = rw view_entry (rw view_entry (rw get-pop (ground arith)))

  -- A read drops what has expired, and no reader sees that it did, then or later.
  pub view-get :
      (key other : String) (now later : ℕ) (c : TtlCache V)
      → now ≤ later
      → view other later (get key now c).1 ≡ view other later c
  unfolding get
  view-get key other now later c h =
      ground (arith, get-pop key other c, eq_iff key other, Option-cases (Dict.get key c))

  -- what get_or_set makes of what it read
  abbrev pub kept : (V → Bool) → Option V → Option V
  kept is_none none = none
  kept is_none (some v) = if is_none v then none else some v

  made_or_kept :
      (is_none : V → Bool) (key other : String) (made : V) (ttl then_now later : ℕ)
      (meanwhile : TtlCache V → TtlCache V) (r : Option V × TtlCache V)
      → ((or_make is_none key ttl made then_now meanwhile r).0
          ≡ elim (kept is_none r.0) [ none ↦ made | some v ↦ v ])
        × (view other later (or_make is_none key ttl made then_now meanwhile r).1
            ≡ elim (kept is_none r.0) [
              | none ↦ view other later (set key made ttl then_now (meanwhile r.1))
              | some v ↦ view other later r.1
            ])
  unfolding or_make
  made_or_kept is_none key other made ttl then_now later meanwhile (none, c) = (refl, refl)
  made_or_kept is_none key other made ttl then_now later meanwhile (some v, c) =
      elim (Bool-cases (is_none v)) [ inl e ↦ rw e (refl, refl) | inr e ↦ rw e (refl, refl) ]

  -- Whatever other tasks call while the factory runs: where the key is served a value that is not
  -- `None`, get_or_set returns it, and changes nothing that a reader sees; otherwise it returns what
  -- the factory made, which the readers of the key are then served until its time to live has
  -- passed, in place of what others stored meanwhile, and the other keys are served what the others
  -- left.
  pub view-get_or_set :
      (is_none : V → Bool) (key other : String) (made : V) (ttl now then_now later : ℕ)
      (meanwhile : TtlCache V → TtlCache V) (c : TtlCache V)
      → now ≤ later
      → ((get_or_set is_none key ttl made now then_now meanwhile c).0
          ≡ elim (kept is_none (view key now c)) [ none ↦ made | some v ↦ v ])
        × (view other later (get_or_set is_none key ttl made now then_now meanwhile c).1
            ≡ elim (kept is_none (view key now c)) [
              | none ↦
                  if key == other
                  then if leb (then_now + ttl) later then none else some made
                  else view other later (meanwhile (get key now c).1)
              | some v ↦ view other later c
            ])
  unfolding get_or_set
  view-get_or_set is_none key other made ttl now then_now later meanwhile c h =
      let (value, seen) =
        made_or_kept is_none key other made ttl then_now later meanwhile (get key now c) in
      let same = view-get key other now later c h in
      let stored = view-set key other made ttl then_now later (meanwhile (get key now c).1) in
      (value, ground (arith, seen, stored, same))
