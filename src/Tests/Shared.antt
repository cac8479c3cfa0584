-- ===== src/Tests/Shared.antt =====
-- The cache and the rate limiter.
use tetra_host.Prelude.{
  ℕ, ◌≡◌, ◌≤◌, ◌==◌, refl, none, some, List, [], ◌∷◌, arith, count, leb, eqb, if◌then◌else◌,
}
use tetra_host.Cache.{TtlCache, view, get, set, get_or_set}
use tetra_host.Cache.Laws.{kept, view-get_or_set}
use tetra_host.RateLimit.{prune, check_bucket}
use tetra_host.RateLimit.Window.{grants, in_window, grants-within}

abbrev held : TtlCache ℕ
held = set "plans" 7 300 1000 []

-- a miss, while whose factory runs another task stores the same key and one more
abbrev others : TtlCache ℕ → TtlCache ℕ
others c = set "plans" 8 300 1400 (set "users" 5 300 1400 c)

view-get_or_set_example :
    ((get_or_set (λ v. eqb v 7) "plans" 300 9 1200 1401 others held).0
      ≡ elim (kept (λ v. eqb v 7) (view "plans" 1200 held)) [ none ↦ 9 | some v ↦ v ])
    × (view "plans" 1500 (get_or_set (λ v. eqb v 7) "plans" 300 9 1200 1401 others held).1
        ≡ elim (kept (λ v. eqb v 7) (view "plans" 1200 held)) [
          | none ↦
              if "plans" == "plans"
              then if leb 1701 1500 then none else some 9
              else view "plans" 1500 (others (get "plans" 1200 held).1)
          | some v ↦ view "plans" 1500 held
        ])
view-get_or_set_example =
    view-get_or_set (λ v. eqb v 7) "plans" "plans" 9 300 1200 1401 1500 others held (omega arith)

abbrev burst : List ℕ
burst = 10 ∷ 20 ∷ 30 ∷ 65 ∷ 75 ∷ []

-- Two a minute: the third call is refused, and later ones are let in as the earlier ones age.
lets_in : grants 1 2 60 [] burst ≡ 10 ∷ 20 ∷ 75 ∷ []
unfolding grants check_bucket prune
lets_in = refl

grants-within_example : count (in_window 60 75) (grants 1 2 60 [] burst) ≤ 2
grants-within_example =
    grants-within 1 2 60 75 0 burst
      (omega arith, (omega arith, (omega arith, (omega arith, (omega arith, tt)))))
