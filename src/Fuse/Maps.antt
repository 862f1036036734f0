-- ===== src/Fuse/Maps.antt =====
-- The hash maps of crates/pfs3-fuse/src/types.rs, as lists of pairs in which the first pair with a key counts.
use pfs.Prelude.{
  ℕ, List, [], ◌∷◌, Bool, true, false, ◌&&◌, ◌==◌, ==_iff, Option, none, some, ◌≡◌, ◌≢◌, ◌↔◌, refl,
  ap, sym, ◌∙◌, if◌then◌else◌, arith, Bool-cases, inl, inr,
}
use pfs.Error.{Str}

-- A type of keys with a test for equality.
pub record Key (K : Type 0) : Type 0 where
  pub beq : K → K → Bool
  pub beq_iff : (a b : K) → (beq a b ≡ true) ↔ (a ≡ b)

instance abbrev pub ino_key : Key ℕ
ino_key = record { beq = λ a b. a == b; beq_iff = ==_iff }

unfoldable pub str_eq : Str → Str → Bool
str_eq [] [] = true
str_eq [] (d ∷ t) = false
str_eq (c ∷ s) [] = false
str_eq (c ∷ s) (d ∷ t) = c == d && str_eq s t

pub str_eq_refl : (s : Str) → str_eq s s ≡ true
unfolding str_eq
str_eq_refl [] = refl
str_eq_refl (c ∷ s) = ground (arith, str_eq_refl s)

pub str_eq_sound : (s t : Str) → str_eq s t ≡ true → s ≡ t
unfolding str_eq
str_eq_sound [] [] h = refl
str_eq_sound [] (d ∷ t) h = cc
str_eq_sound (c ∷ s) [] h = cc
str_eq_sound (c ∷ s) (d ∷ t) h =
    let e : c ≡ d = ground arith in
    let rest : str_eq s t ≡ true = ground arith in rw e (ap (λ l. d ∷ l) (str_eq_sound s t rest))

-- Names as keys.
instance abbrev pub str_key : Key Str
str_key = record { beq = str_eq; beq_iff = λ s t. (str_eq_sound s t, λ e. rw e (str_eq_refl t)) }

pub pair_sound :
    (i j : ℕ) (s t : Str) → (i == j && str_eq s t) ≡ true → (i ≡ j) × (str_eq s t ≡ true)
pair_sound i j s t h = ground arith

pub pair_refl : (i : ℕ) (s : Str) → (i == i && str_eq s s) ≡ true
pair_refl i s = ground (arith, str_eq_refl s)

-- An inode and a name in it.
instance abbrev pub name_key : Key (ℕ × Str)
name_key = record {
  beq = λ a b. (a.0 == b.0) && str_eq (a.1) (b.1);
  beq_iff = λ a b. (
    λ h.
        let (e, k) = pair_sound (a.0) (b.0) (a.1) (b.1) h in
        ap (λ x. (x, a.1)) e ∙ ap (λ s. (b.0, s)) (str_eq_sound (a.1) (b.1) k),
    λ e. rw e (pair_refl (b.0) (b.1)),
  );
}

module _ {K A : Type 0} ⦃key : Key K⦄ where
  open key use {beq, beq_iff}

  abbrev pub get : K → List (K × A) → Option A
  get k [] = none
  get k ((j, a) ∷ m) = if beq j k then some a else get k m

  abbrev pub remove : K → List (K × A) → List (K × A)
  remove k [] = []
  remove k ((j, a) ∷ m) = let rest = remove k m in if beq j k then rest else (j, a) ∷ rest

  abbrev pub insert : K → A → List (K × A) → List (K × A)
  insert k a m = (k, a) ∷ remove k m

  -- `if let Some(x) = map.get_mut(&k) { *x = f(x); }`
  abbrev pub update : K → (A → A) → List (K × A) → List (K × A)
  update k f [] = []
  update k f ((j, a) ∷ m) = if beq j k then (j, f a) ∷ m else (j, a) ∷ update k f m

module _ {K : Type 0} ⦃key : Key K⦄ where
  open key use {beq, beq_iff}

  same : (k : K) → beq k k ≡ true
  same k = (beq_iff k k).1 refl

  other : (j k : K) → j ≢ k → beq j k ≡ false
  other j k ne = elim (Bool-cases (beq j k)) [ inl e ↦ absurd (ne ((beq_iff j k).0 e)) | inr e ↦ e ]

module _ {K A : Type 0} ⦃key : Key K⦄ where
  open key use {beq, beq_iff}

  pub get-remove_self : (k : K) (m : List (K × A)) → get k (remove k m) ≡ none
  get-remove_self k [] = refl
  get-remove_self k ((j, a) ∷ m) = elim (Bool-cases (beq j k)) [
    | inl e ↦ rw e (get-remove_self k m)
    | inr e ↦ rw (e, e) (get-remove_self k m)
  ]

  pub get-remove_ne : (k l : K) (m : List (K × A)) → k ≢ l → get l (remove k m) ≡ get l m
  get-remove_ne k l [] ne = refl
  get-remove_ne k l ((j, a) ∷ m) ne = elim (Bool-cases (beq j k)) [
    | inl e ↦
        let here : beq j l ≡ false = other j l (λ f. ne (sym ((beq_iff j k).0 e) ∙ f)) in
        rw (e, here) (get-remove_ne k l m ne)
    | inr e ↦ rw e (ap (λ r. if beq j l then some a else r) (get-remove_ne k l m ne))
  ]

  pub get-insert_self : (k : K) (a : A) (m : List (K × A)) → get k (insert k a m) ≡ some a
  get-insert_self k a m = rw (same k) refl

  pub get-insert_ne : (k l : K) (a : A) (m : List (K × A)) → k ≢ l → get l (insert k a m) ≡ get l m
  get-insert_ne k l a m ne = rw (other k l ne) (get-remove_ne k l m ne)

  pub get-update_self :
      (k : K) (f : A → A) (m : List (K × A)) {a : A}
      → get k m ≡ some a
      → get k (update k f m) ≡ some (f a)
  get-update_self k f [] h = cc
  get-update_self k f ((j, b) ∷ m) h = elim (Bool-cases (beq j k)) [
    | inl e ↦ rw (e, e) (ap (λ o. elim o [ none ↦ none | some x ↦ some (f x) ]) (rw e at h))
    | inr e ↦ rw (e, e) (get-update_self k f m (rw e at h))
  ]

  pub get-update_ne :
      (k l : K) (f : A → A) (m : List (K × A)) → k ≢ l → get l (update k f m) ≡ get l m
  get-update_ne k l f [] ne = refl
  get-update_ne k l f ((j, b) ∷ m) ne = elim (Bool-cases (beq j k)) [
    | inl e ↦
        let here : beq j l ≡ false = other j l (λ g. ne (sym ((beq_iff j k).0 e) ∙ g)) in
        rw (e, here) refl
    | inr e ↦ rw e (ap (λ r. if beq j l then some b else r) (get-update_ne k l f m ne))
  ]
