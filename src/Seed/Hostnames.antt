-- ===== src/Seed/Hostnames.antt =====
-- internal/seed/seed.go: `isValidHostname` against a description of host names.
use ardvark.Prelude.{
  ℕ, ◌≤◌, ◌≡◌, ◌≢◌, ◌⊎◌, refl, ap, inl, inr, Bool, true, false, not, ◌&&◌, leb, ◌==◌, ==_iff, List,
  [], ◌∷◌, ◌++◌, Text, All, any, length, is_empty, split, Bool-cases, arith,
}
use ardvark.Seed.{is_label_byte, is_label, starts_with, ends_with, is_valid_hostname}

-- A letter of ASCII in lower case, a digit, or a hyphen.
abbrev pub IsLabelByte : ℕ → Type 0
IsLabelByte b = (97 ≤ b) × (b ≤ 122) ⊎ (48 ≤ b) × (b ≤ 57) ⊎ (b ≡ 45)

-- From 1 to 63 of these, with no hyphen at either end.
pub record IsLabel (label : Text) : Type 0 where
  pub filled : 1 ≤ length label
  pub short : length label ≤ 63
  pub bytes : All IsLabelByte label
  pub no_hyphen_first : (s : Text) → label ≢ 45 ∷ s
  pub no_hyphen_last : (s : Text) → label ≢ s ++ 45 ∷ []

-- At most 253 bytes, of which the dots stand between labels.
abbrev pub IsHostname : Text → Type 0
IsHostname name = (length name ≤ 253) × All IsLabel (split 46 name)

label_byte : (b : ℕ) → is_label_byte b ≡ true → IsLabelByte b
label_byte b h = elim (Bool-cases (leb 97 b && leb b 122)) [
  | inl y ↦ inl (ground (arith, y), ground (arith, y))
  | inr n ↦ elim (Bool-cases (leb 48 b && leb b 57)) [
    | inl y ↦ inr (inl (ground (arith, y), ground (arith, y)))
    | inr m ↦ inr (inr (ground (arith, h, n, m)))
  ]
]

none-All :
    {A : Type 0} (p : A → Bool) (P : A → Type 0) (xs : List A)
    → ((x : A) → p x ≡ true → P x)
    → not (any (λ x. not (p x)) xs) ≡ true
    → All P xs
unfolding any
none-All p P [] f h = tt
none-All p P (x ∷ xs) f h = (f x (ground (arith, h)), none-All p P xs f (ground (arith, h)))

not_empty : (s : Text) (b : ℕ) → is_empty (s ++ b ∷ []) ≡ false
not_empty [] b = refl
not_empty (a ∷ s) b = refl

at_least_one : (s : Text) → is_empty s ≡ false → 1 ≤ length s
at_least_one [] h = cc
at_least_one (b ∷ s) h = omega arith

ends_with-append : (c : ℕ) (s : Text) → ends_with c (s ++ c ∷ []) ≡ true
unfolding ends_with
ends_with-append c [] = ground arith
ends_with-append c (b ∷ s) = rw (not_empty s c, ends_with-append c s) refl

is_label-IsLabel : (label : Text) → is_label label ≡ true → IsLabel label
is_label-IsLabel label h = record {
  filled = at_least_one label (ground (arith, h));
  short = ground (arith, h);
  bytes = none-All is_label_byte IsLabelByte label label_byte (ground (arith, h));
  no_hyphen_first = λ s e. ground (arith, h, ap (starts_with 45) e);
  no_hyphen_last = λ s e. ground (arith, h, ap (ends_with 45) e, ends_with-append 45 s);
}

pub valid-IsHostname : (name : Text) → is_valid_hostname name ≡ true → IsHostname name
unfolding is_valid_hostname
valid-IsHostname name h = (
  ground (arith, h),
  none-All is_label IsLabel (split 46 name) is_label-IsLabel (ground (arith, h)),
)

pub dot-split :
    (name : Text) → any (λ b. b == 46) name ≡ true → (s : Text) × (t : Text) × (name ≡ s ++ 46 ∷ t)
unfolding any
dot-split [] h = cc
dot-split (b ∷ name) h = elim (Bool-cases (b == 46)) [
  | inl y ↦ ([], name, ap (λ c. c ∷ name) ((==_iff b 46).0 y))
  | inr n ↦ let (s, t, e) = dot-split name (ground (arith, h, n)) in (b ∷ s, t, ap (λ l. b ∷ l) e)
]
