-- ===== src/Passport/Examples.antt =====
-- A run of crypto/passport.go with a key that only depends on the length of the password.
use mathlib.Core.Path.{subst}
use modern_go.Base.Outcome.{Returns}
use modern_go.Base.{
  ℕ, zero, suc, ◌%◌, ◌<◌, ◌≡◌, refl, sym, ◌∙◌, ap, arith, ◌⊎◌, inl, inr, ◌↔◌, [], ◌∷◌, none, true,
  length, replicate, length-replicate,
}
use modern_go.Passport.{Bytes, hash_password, verify_password}
use modern_go.Passport.Verified.{IsBytes, IsScrypt, verify_password-hash_password}

abbrev one_s : Bytes
one_s = replicate 32 1

abbrev two_s : Bytes
two_s = replicate 32 2

abbrev by_length : Bytes → Bytes → ℕ ⊎ Bytes
by_length p s = inr (replicate 32 (length p % 256))

replicate-IsBytes : (n b : ℕ) → b < 256 → IsBytes (replicate n b)
replicate-IsBytes zero b h = tt
replicate-IsBytes (suc n) b h = (h, replicate-IsBytes n b h)

key_of : ℕ ⊎ Bytes → Bytes
key_of = λ r. elim r [ inl e ↦ [] | inr k ↦ k ]

by_length-IsScrypt : IsScrypt by_length
unfolding key_of
by_length-IsScrypt = record {
  size = λ p s k e. ap (λ r. length (key_of r)) (sym e) ∙ length-replicate 32 (length p % 256);
  bytes =
      λ p s k e. subst IsBytes (ap key_of e) (replicate-IsBytes 32 (length p % 256) (omega arith));
}

verify_password-hash_password_example : Returns (hash_password by_length (5 ∷ []) []) (λ r.
    (r.1 ≡ none)
    × Returns
        (verify_password by_length r.0 (5 ∷ 6 ∷ []) [])
        (λ accepted. (accepted ≡ true) ↔ (one_s ≡ two_s)))
verify_password-hash_password_example =
    verify_password-hash_password by_length by_length-IsScrypt (5 ∷ []) (5 ∷ 6 ∷ []) [] one_s two_s
      refl refl
