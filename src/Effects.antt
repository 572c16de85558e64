-- ===== src/Effects.antt =====
-- Code that changes a state and may fail: what the modules on the store and on the handlers are
-- written in.
use ardvark.Prelude.{List, [], ◌∷◌, ◌≡◌, ap, fun_ext}
use ardvark.Frontier.Db.{Result, ok, err}

abbrev pub Act : Type 0 → Type 0 → Type 0 → Type 0
Act S E A = S → Result E A × S

module _ {S E : Type 0} where
  abbrev pub return : {A : Type 0} → A → Act S E A
  return a s = (ok a, s)

  abbrev pub throw : {A : Type 0} → E → Act S E A
  throw e s = (err e, s)

  -- What follows sees the error.
  abbrev pub try : {F A B : Type 0} → Act S E A → (Result E A → Act S F B) → Act S F B
  try m k s = let (r, s') = m s in k r s'

  abbrev pub when_ok : {A B : Type 0} → (A → Act S E B) → Result E A → Act S E B
  when_ok k (ok a) = k a
  when_ok k (err e) = throw e

  -- `if err != nil { return err }` before what follows.
  infixl 5 ◌>>=◌ ◌>>◌
  abbrev pub ◌>>=◌ : {A B : Type 0} → Act S E A → (A → Act S E B) → Act S E B
  m >>= k = try m (when_ok k)

  abbrev pub ◌>>◌ : {A B : Type 0} → Act S E A → Act S E B → Act S E B
  m >> k = m >>= λ _. k

  -- An error is logged, which is left out, and the code goes on.
  abbrev pub logged : {F A : Type 0} → Act S E A → Act S F (Unit {0})
  logged m s = (ok tt, (m s).1)

  -- The loop `for _, x := range xs`, which an error ends.
  unfoldable pub for_each : {A : Type 0} → (A → Act S E (Unit {0})) → List A → Act S E (Unit {0})
  for_each body [] = return tt
  for_each body (x ∷ xs) = body x >> for_each body xs

  -- What follows an action may be replaced by its equal.
  pub bind_cong :
      {A B : Type 0} (m : Act S E A) (k l : A → Act S E B)
      → ((a : A) → k a ≡ l a)
      → (m >>= k) ≡ (m >>= l)
  bind_cong {A = A} {B = B} m k l h = ap (λ (f : A → Act S E B). m >>= f) (fun_ext h)

  pub try_cong :
      {F A B : Type 0} (m : Act S E A) (k l : Result E A → Act S F B)
      → ((r : Result E A) → k r ≡ l r)
      → try m k ≡ try m l
  try_cong {F = F} {A = A} {B = B} m k l h =
      ap (λ (f : Result E A → Act S F B). try m f) (fun_ext h)
