-- ===== src/User/Support/Compare.antt =====
-- What the comparisons of strings decide.
use mini_os_with_friends.Base.{
  ℕ, suc, ◌+◌, ◌<◌, ◌≡◌, ◌↔◌, refl, ap, sym, ◌∙◌, arith, ◌==◌, List, [], ◌∷◌, ◌++◌, if◌then◌else◌,
  sub32, length,
}
use native.Mathlib.Decide.{ℕ_discrete}
use mini_os_with_friends.CString.Compare.{IsText}
use mini_os_with_friends.User.Support.{strcmp, strncmp}

-- Two bytes whose difference is 0.
sub32-zero : (c d : ℕ) → c < 256 → d < 256 → sub32 c d ≡ 0 → c ≡ d
sub32-zero c d hc hd e = omega (arith, e)

strcmp-equal : (s : List ℕ) → strcmp s s ≡ 0
unfolding strcmp
strcmp-equal [] = refl
strcmp-equal (c ∷ s) = ground (arith, strcmp-equal s)

equal-strcmp : (s t : List ℕ) → IsText s → IsText t → strcmp s t ≡ 0 → s ≡ t
unfolding strcmp
equal-strcmp [] [] hs ht e = refl
equal-strcmp [] (d ∷ t) hs (some_byte, small, ht) e = absurd (omega (arith, e, some_byte, small))
equal-strcmp (c ∷ s) [] (some_byte, small, hs) ht e = absurd (omega (arith, e, some_byte, small))
equal-strcmp (c ∷ s) (d ∷ t) (pc, hc, hs) (pd, hd, ht) e = elim (ℕ_discrete c d) [
  | yes same ↦
      let rest : strcmp s t ≡ 0 = ground (arith, e, same) in
      rw same (ap (λ r. d ∷ r) (equal-strcmp s t hs ht rest))
  | no differ ↦
      let far : sub32 c d ≡ 0 = ground (arith, e, differ) in
      absurd (differ (sub32-zero c d hc hd far))
]

strncmp-cons :
    (c d n : ℕ) (s t : List ℕ)
    → strncmp (c ∷ s) (d ∷ t) (n + 1) ≡ (if c == d then strncmp s t n else sub32 c d)
unfolding strncmp
strncmp-cons c d n s t = let next : n + 1 ≡ suc n = omega arith in rw next refl

strncmp-empty : (d n : ℕ) (t : List ℕ) → strncmp [] (d ∷ t) (n + 1) ≡ sub32 0 d
unfolding strncmp
strncmp-empty d n t = let next : n + 1 ≡ suc n = omega arith in rw next refl

prefix-strncmp : (s r : List ℕ) → strncmp (s ++ r) s (length s) ≡ 0
unfolding strncmp
prefix-strncmp [] r = refl
prefix-strncmp (c ∷ s) r =
    ground (arith, strncmp-cons c c (length s) (s ++ r) s, prefix-strncmp s r)

strncmp-prefix :
    (t s : List ℕ) → IsText t → IsText s → strncmp t s (length s) ≡ 0 → (r : List ℕ) × (t ≡ s ++ r)
strncmp-prefix t [] ht hs e = (t, refl)
strncmp-prefix [] (d ∷ s) ht (pd, hd, hs) e =
    absurd (omega (arith, sym (strncmp-empty d (length s) s) ∙ e, pd, hd))
strncmp-prefix (c ∷ t) (d ∷ s) (pc, hc, ht) (pd, hd, hs) e =
    let step = sym (strncmp-cons c d (length s) t s) ∙ e in
    elim (ℕ_discrete c d) [
      | yes same ↦
          let rest : strncmp t s (length s) ≡ 0 = ground (arith, step, same) in
          let (r, tail) = strncmp-prefix t s ht hs rest in (r, rw (same, tail) refl)
      | no differ ↦
          let far : sub32 c d ≡ 0 = ground (arith, step, differ) in
          absurd (differ (sub32-zero c d hc hd far))
    ]

-- On strings of nonzero bytes: `ece391_strcmp` returns 0 exactly for equal strings, and
-- `ece391_strncmp` with the length of its second string exactly if the first begins with the second.
pub strcmp-strncmp :
    (s t : List ℕ)
    → IsText s
    → IsText t
    → ((strcmp s t ≡ 0) ↔ (s ≡ t)) × ((strncmp s t (length t) ≡ 0) ↔ ((r : List ℕ) × (s ≡ t ++ r)))
strcmp-strncmp s t hs ht = (
  (equal-strcmp s t hs ht, λ e. rw e (strcmp-equal t)),
  (strncmp-prefix s t hs ht, λ (r, e). rw e (prefix-strncmp t r)),
)
