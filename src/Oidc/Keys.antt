-- ===== src/Oidc/Keys.antt =====
-- The keys of codes and of access tokens never meet.
use Prim.Native.String.{String, ◌∷◌}
use Prim.Native.Char.{code}
use text.Mathlib.TextLemmas.{cons-append}
use tetra_host.Prelude.{ℕ, ◌≡◌, ◌≢◌, ap, sym, arith, ◌==◌, false, eq-false_of_ne}
use tetra_host.Oidc.{code_key, token_key}

sixth : String → ℕ
sixth (_ ∷ (_ ∷ (_ ∷ (_ ∷ (_ ∷ (c ∷ _)))))) = code c
sixth _ = 0

sixth-code_key : (a : String) → sixth (code_key a) ≡ 99
unfolding sixth
sixth-code_key a = rw (cons-append, cons-append, cons-append, cons-append, cons-append, cons-append)

sixth-token_key : (a : String) → sixth (token_key a) ≡ 97
unfolding sixth
sixth-token_key a =
    rw (cons-append, cons-append, cons-append, cons-append, cons-append, cons-append)

pub code_key-ne-token_key : (a b : String) → code_key a ≢ token_key b
code_key-ne-token_key a b h = omega (arith, sixth-code_key a, sixth-token_key b, ap sixth h)

-- The tests of the cache between keys of the two kinds fail.
pub token_key-code_key : (a b : String) → (token_key a == code_key b) ≡ false
token_key-code_key a b = eq-false_of_ne _ _ (λ h. code_key-ne-token_key b a (sym h))

pub code_key-token_key : (a b : String) → (code_key a == token_key b) ≡ false
code_key-token_key a b = eq-false_of_ne _ _ (code_key-ne-token_key a b)
