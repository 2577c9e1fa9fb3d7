-- ===== src/Base/Groups.antt =====
-- Go maps of slices, filled by `m[key(x)] = append(m[key(x)], x)`.
use gnomock.Base.{
  Text, List, ◌≡◌, ◌∷◌, [], Bool, ◌++◌, none, if◌then◌else◌, any, ◌↔◌, text_eq, sym, some, false,
  arith, Bool-cases, inl, ap, text_eq_iff, ◌∙◌, inr,
}
use gnomock.Base.Assoc.{Assoc, lookup, insert, NodupKeys, insert-NodupKeys, lookup-insert}
use mathlib.Core.List.{append-nil, append_assoc}

module _ {A : Type 0} where
  -- m[k], which is empty for a missing key.
  unfoldable pub of_key : Text → Assoc (List A) → List A
  unfolding lookup
  of_key k m = elim (lookup k m) [ none ↦ [] | some xs ↦ xs ]

  of_key-insert :
      (k t : Text) (v : List A) (m : Assoc (List A))
      → of_key t (insert k v m) ≡ (if text_eq k t then v else of_key t m)
  unfolding of_key
  of_key-insert k t v m = ground (arith, lookup-insert k t v m)

module _ {A : Type 0} (key : A → Text) where
  unfoldable pub group : List A → Assoc (List A) → Assoc (List A)
  unfolding of_key insert
  group [] m = m
  group (x ∷ xs) m = group xs (insert (key x) (of_key (key x) m ++ x ∷ []) m)

  -- The map after the loop.
  unfoldable pub group_by : List A → Assoc (List A)
  unfolding group
  group_by xs = group xs []

  -- The items of a key, in order.
  abbrev pub items_of : Text → List A → List A
  items_of k [] = []
  items_of k (x ∷ xs) = let rest = items_of k xs in if text_eq (key x) k then x ∷ rest else rest

  abbrev pub has_key : Text → List A → Bool
  has_key k xs = any (λ x. text_eq (key x) k) xs

  of_key-group :
      (t : Text) (xs : List A) (m : Assoc (List A))
      → of_key t (group xs m) ≡ of_key t m ++ items_of t xs
  unfolding group
  of_key-group t [] m = sym (append-nil (of_key t m))
  of_key-group t (x ∷ xs) m =
      let before = of_key (key x) m in
      let ih = of_key-group t xs (insert (key x) (before ++ x ∷ []) m) in
      let here = of_key-insert (key x) t (before ++ x ∷ []) m in
      elim (Bool-cases (text_eq (key x) t)) [
        | inl same ↦
            let e = ap (λ k. of_key k m ++ (x ∷ items_of t xs)) ((text_eq_iff (key x) t).0 same) in
            let a = append_assoc before (x ∷ []) (items_of t xs) in
            rw (same) (ih ∙ ap (λ l. l ++ items_of t xs) (rw (same) at here) ∙ a ∙ e)
        | inr other ↦ rw (other) (ih ∙ ap (λ l. l ++ items_of t xs) (rw (other) at here))
      ]

  group-NodupKeys : (xs : List A) (m : Assoc (List A)) → NodupKeys m → NodupKeys (group xs m)
  unfolding group
  group-NodupKeys [] m u = u
  group-NodupKeys (x ∷ xs) m u =
      group-NodupKeys xs (insert (key x) (of_key (key x) m ++ x ∷ []) m)
        (insert-NodupKeys (key x) (of_key (key x) m ++ x ∷ []) m u)

  lookup-group-none :
      (t : Text) (xs : List A) (m : Assoc (List A))
      → (lookup t (group xs m) ≡ none) ↔ ((lookup t m ≡ none) × (has_key t xs ≡ false))
  unfolding group
  lookup-group-none t [] m = ground arith
  lookup-group-none t (x ∷ xs) m = ground (
    arith,
    lookup-group-none t xs (insert (key x) (of_key (key x) m ++ x ∷ []) m),
    lookup-insert (key x) t (of_key (key x) m ++ x ∷ []) m,
  )

  -- The keys of such a map are distinct, they are the keys of the items, and each key has its items
  -- in their order.
  pub group_by_lem :
      (xs : List A)
      → NodupKeys (group_by xs)
        × ((t : Text)
            → ((lookup t (group_by xs) ≡ none) ↔ (has_key t xs ≡ false))
              × (of_key t (group_by xs) ≡ items_of t xs))
  unfolding group_by of_key lookup
  group_by_lem xs = (
    group-NodupKeys xs [] tt,
    λ t. (ground (arith, lookup-group-none t xs []), of_key-group t xs []),
  )
