-- ===== src/Completion/Fields.antt =====
-- A loop that changes the items of a form one by one, seen at one index.
use vyatta_webgui.Base.{
  ℕ, zero, suc, ◌≡◌, refl, sym, ap, ◌∙◌, ◌≢◌, inl, inr, Bool, true, false, ◌||◌, Option, none, some,
  List, [], ◌∷◌, ◌==◌, Bool-cases, Option-cases, get_elem?, any, All, ==_iff,
}
use mathlib.Core.Option
use mathlib.Core.Path.{subst}
use vyatta_webgui.Escape.{◌>>=◌}
use vyatta_webgui.Completion.{change_at}

module _ {ℓ} {A : Type ℓ} (f : A → Option A) where
  -- The changes at the indices, one after the other.
  unfoldable pub each_at : List ℕ → List A → Option (List A)
  each_at [] xs = some xs
  each_at (i ∷ is) xs = change_at f i xs >>= λ ys. each_at is ys

  -- A change at an index where it returns.
  pub change_at-returns :
      (i : ℕ) (xs : List A) (x y : A)
      → get_elem? xs i ≡ some x
      → f x ≡ some y
      → (ys : List A) × (change_at f i xs ≡ some ys)
  change_at-returns i [] x y h e = absurd (cc)
  change_at-returns zero (a ∷ xs) x y h e =
      let same : a ≡ x = cc in (y ∷ xs, ap (Option.map (λ z. z ∷ xs)) (ap f same ∙ e))
  change_at-returns (suc i) (a ∷ xs) x y h e =
      let (ys, g) = change_at-returns i xs x y h e in (a ∷ ys, ap (Option.map (λ zs. a ∷ zs)) g)

  -- What stands at the index then.
  change_at-there :
      (i : ℕ) (xs ys : List A) (x : A)
      → change_at f i xs ≡ some ys
      → get_elem? xs i ≡ some x
      → (y : A) × (f x ≡ some y) × (get_elem? ys i ≡ some y)
  change_at-there i [] ys x e h = absurd (cc)
  change_at-there zero (a ∷ xs) ys x e h = elim (Option-cases (f a)) [
    | inl n ↦ absurd (cc (ap (Option.map (λ z. z ∷ xs)) n))
    | inr (y, s) ↦
        let same : a ≡ x = cc in
        let whole : y ∷ xs ≡ ys = cc (ap (Option.map (λ z. z ∷ xs)) s) in
        (y, ap f (sym same) ∙ s, ap (λ l. get_elem? l 0) (sym whole))
  ]
  change_at-there (suc i) (a ∷ xs) ys x e h = elim (Option-cases (change_at f i xs)) [
    | inl n ↦ absurd (cc)
    | inr (zs, s) ↦
        let (y, fy, at) = change_at-there i xs zs x s h in
        let whole : a ∷ zs ≡ ys = cc in (y, fy, ap (λ l. get_elem? l (suc i)) (sym whole) ∙ at)
  ]

  -- All other elements stay.
  change_at-elsewhere :
      (i j : ℕ) (xs ys : List A)
      → change_at f i xs ≡ some ys
      → i ≢ j
      → get_elem? ys j ≡ get_elem? xs j
  change_at-elsewhere i j [] ys e h = absurd (cc)
  change_at-elsewhere zero zero (a ∷ xs) ys e h = absurd (h refl)
  change_at-elsewhere zero (suc j) (a ∷ xs) ys e h = elim (Option-cases (f a)) [
    | inl n ↦ absurd (cc (ap (Option.map (λ z. z ∷ xs)) n))
    | inr (y, s) ↦
        let whole : y ∷ xs ≡ ys = cc (ap (Option.map (λ z. z ∷ xs)) s) in
        ap (λ l. get_elem? l (suc j)) (sym whole)
  ]
  change_at-elsewhere (suc i) zero (a ∷ xs) ys e h = elim (Option-cases (change_at f i xs)) [
    | inl n ↦ absurd (cc)
    | inr (zs, s) ↦ let whole : a ∷ zs ≡ ys = cc in ap (λ l. get_elem? l 0) (sym whole)
  ]
  change_at-elsewhere (suc i) (suc j) (a ∷ xs) ys e h = elim (Option-cases (change_at f i xs)) [
    | inl n ↦ absurd (cc)
    | inr (zs, s) ↦
        let whole : a ∷ zs ≡ ys = cc in
        ap (λ l. get_elem? l (suc j)) (sym whole)
        ∙ change_at-elsewhere i j xs zs s (λ k. h (ap suc k))
  ]

abbrev pub mem : ℕ → List ℕ → Bool
mem i is = any (λ j. j == i) is

-- The loop, for elements that stay in `Ok`, on which a change always returns.
module _ {ℓ κ} {A : Type ℓ} (f : A → Option A) (Ok : A → Type κ)
    (keeps : (x : A) → Ok x → (y : A) × (f x ≡ some y) × Ok y) where
  abbrev pub OkAt : List A → ℕ → Type (ℓ ⊔ κ)
  OkAt xs i = (x : A) × (get_elem? xs i ≡ some x) × Ok x

  change-OkAt :
      (i j : ℕ) (xs ys : List A) → change_at f i xs ≡ some ys → OkAt xs i → OkAt xs j → OkAt ys j
  change-OkAt i j xs ys e (x, at, ok) (z, at', ok') = elim (Bool-cases (i == j)) [
    | inl same ↦
        let eq : i ≡ j = (==_iff i j).0 same in
        let (y, fy, there) = change_at-there f i xs ys x e at in
        let (y', fy', good) = keeps x ok in
        let result : y ≡ y' = cc in
        (y, subst (λ k. get_elem? ys k ≡ some y) eq there, subst Ok (sym result) good)
    | inr other ↦
        let apart : i ≢ j = λ eq. cc ((==_iff i j).1 eq) in
        (z, change_at-elsewhere f i j xs ys e apart ∙ at', ok')
  ]

  rest_ok :
      (i : ℕ) (is : List ℕ) (xs ys : List A)
      → change_at f i xs ≡ some ys
      → OkAt xs i
      → All (OkAt xs) is
      → All (OkAt ys) is
  rest_ok i [] xs ys e ok oks = tt
  rest_ok i (j ∷ is) xs ys e ok oks =
      (change-OkAt i j xs ys e ok oks.0, rest_ok i is xs ys e ok oks.1)

  -- The loop returns.
  pub each_at-returns :
      (is : List ℕ) (xs : List A) → All (OkAt xs) is → (ys : List A) × (each_at f is xs ≡ some ys)
  unfolding each_at
  each_at-returns [] xs oks = (xs, refl)
  each_at-returns (i ∷ is) xs oks =
      let (x, at, ok) = oks.0 in
      let (y, fy, good) = keeps x ok in
      let (ys, e) = change_at-returns f i xs x y at fy in
      let (zs, g) = each_at-returns is ys (rest_ok i is xs ys e oks.0 oks.1) in
      (zs, ap (λ o. o >>= λ ys. each_at f is ys) e ∙ g)

-- One element under the loop: it has `P` until a change gives it `Q` for good.
module _ {ℓ κ} {A : Type ℓ} (f : A → Option A) (P Q : A → Type κ)
    (first : (x y : A) → P x → f x ≡ some y → Q y)
    (again : (x y : A) → Q x → f x ≡ some y → Q y) where
  abbrev pub Has : Bool → A → Type κ
  Has true y = Q y
  Has false y = P y

  changed : (b : Bool) (x y : A) → Has b x → f x ≡ some y → Q y
  changed true x y h e = again x y h e
  changed false x y h e = first x y h e

  or_true : (b : Bool) → (b || true) ≡ true
  or_true true = refl
  or_true false = refl

  pub each_at-Has :
      (is : List ℕ) (j : ℕ) (b : Bool) (xs ys : List A) (x : A)
      → each_at f is xs ≡ some ys
      → get_elem? xs j ≡ some x
      → Has b x
      → (y : A) × (get_elem? ys j ≡ some y) × Has (mem j is || b) y
  unfolding each_at
  each_at-Has [] j b xs ys x e at p =
      (x, ap (λ o. elim o [ none ↦ none | some l ↦ get_elem? l j ]) (sym e) ∙ at, p)
  each_at-Has (i ∷ is) j b xs ys x e at p = elim (Option-cases (change_at f i xs)) [
    | inl n ↦ absurd (cc)
    | inr (zs, s) ↦
        let rest : each_at f is zs ≡ some ys = sym (ap (λ o. o >>= λ l. each_at f is l) s) ∙ e in
        elim (Bool-cases (i == j)) [
          | inl same ↦
              let eq : i ≡ j = (==_iff i j).0 same in
              let (y, fy, there) =
                change_at-there f i xs zs x s (subst (λ k. get_elem? xs k ≡ some x) (sym eq) at) in
              let (z, at', q) =
                each_at-Has is j true zs ys y rest (subst (λ k. get_elem? zs k ≡ some y) eq there)
                  (changed b x y p fy) in
              (z, at', rw same (subst (λ c. Has c z) (or_true (mem j is)) q))
          | inr other ↦
              let apart : i ≢ j = λ eq. cc ((==_iff i j).1 eq) in
              let (z, at', q) =
                each_at-Has is j b zs ys x rest (change_at-elsewhere f i j xs zs s apart ∙ at) p in
              (z, at', rw other q)
        ]
  ]

  or_nothing : (b : Bool) → (b || false) ≡ b
  or_nothing true = refl
  or_nothing false = refl

  in_family {μ} :
      (F : Bool → A → Type μ) (b : Bool) (y : A)
      → (Q y → F true y)
      → (P y → F false y)
      → Has b y
      → F b y
  in_family F true y t u h = t h
  in_family F false y t u h = u h

  -- The element at an index that has `P` when the loop begins, by a family that has both cases.
  pub each_at-by {μ} :
      (F : Bool → A → Type μ)
      → ((y : A) → Q y → F true y)
      → ((y : A) → P y → F false y)
      → (is : List ℕ) (j : ℕ) (xs ys : List A) (x : A) → each_at f is xs ≡ some ys
      → get_elem? xs j ≡ some x
      → P x
      → (y : A) × (get_elem? ys j ≡ some y) × F (mem j is) y
  each_at-by F t u is j xs ys x e at p =
      let (y, at', h) = each_at-Has is j false xs ys x e at p in
      let h' = in_family F (mem j is || false) y (t y) (u y) h in
      (y, at', subst (λ b. F b y) (or_nothing (mem j is)) h')
