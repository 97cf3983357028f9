-- ===== src/Registry/Resolve.antt =====
-- What resolving a reference finds.
use fluxion.Prelude.{
  ◌≤◌, String, [], ◌∷◌, Option, none, some, true, ltb, All, All-map, if◌then◌else◌, ◌≡◌, ◌⊎◌, ◌↔◌,
  ◌||◌, ◌&&◌, refl, sym, ap, ◌∙◌, subst, inl, inr, arith, eq_iff, Bool-cases,
}
use fluxion.Registry.Reference.{OciRef}
use fluxion.Registry.Entries.{
  RegistryEntry, Components, matches, created, first, resolve, is_same, is_null,
}
use fluxion.Store.Tables.{select, order_by_desc, insert_by_desc}

abbrev pub IsRow : RegistryEntry → Components → Type 0
IsRow e [] = ⊥
IsRow e (x ∷ rows) = (x ≡ e) ⊎ IsRow e rows

-- The newest of the rows.
abbrev IsNewest : RegistryEntry → Components → Type 0
IsNewest e rows = IsRow e rows × All (λ x. created x ≤ created e) rows

abbrev newer : RegistryEntry → Option RegistryEntry → RegistryEntry
newer x none = x
newer x (some y) = if ltb (created x) (created y) then y else x

insert_by_desc-first :
    (x : RegistryEntry) (ys : Components)
    → first (insert_by_desc created x ys) ≡ some (newer x (first ys))
insert_by_desc-first x [] = refl
insert_by_desc-first x (y ∷ ys) = ground arith

order_by_desc-first :
    (x : RegistryEntry) (rows : Components)
    → (e : RegistryEntry) × (first (order_by_desc created (x ∷ rows)) ≡ some e)
      × IsNewest e (x ∷ rows)
order_by_desc-first x [] = (x, refl, (inl refl, (omega arith, tt)))
order_by_desc-first x (y ∷ rows) =
    let (f, q, (row, all)) = order_by_desc-first y rows in
    let placed : first (order_by_desc created (x ∷ y ∷ rows)) ≡ some (newer x (some f)) =
      insert_by_desc-first x (order_by_desc created (y ∷ rows)) ∙ ap (λ o. some (newer x o)) q in
    elim (Bool-cases (ltb (created x) (created f))) [
      | inl e ↦ (f, placed ∙ rw e refl, (inr row, (ground arith, all)))
      | inr e ↦ (
        x,
        placed ∙ rw e refl,
        (
          inl refl,
          (
            omega arith,
            All-map (λ t. created t ≤ created f) (λ t. created t ≤ created x) (y ∷ rows)
                (λ t h. ground arith) all,
          ),
        ),
      )
    ]

-- The rows that a reference stands for: those of its repository with its tag, or, if it has no tag,
-- also those with its digest.
abbrev pub Matches : OciRef → RegistryEntry → Type 0
Matches r e =
    (e.oci_ref.registry ≡ r.registry)
    × (e.oci_ref.repository ≡ r.repository)
    × ((e.oci_ref.tag ≡ r.tag) ⊎ ((r.tag ≡ none) × (e.oci_ref.digest ≡ r.digest)))

is_same_iff : (a b : Option String) → (is_same a b ≡ true) ↔ (a ≡ b)
is_same_iff none none = (λ h. refl, λ h. refl)
is_same_iff none (some b) = (λ h. cc, λ h. cc)
is_same_iff (some a) none = (λ h. cc, λ h. cc)
is_same_iff (some a) (some b) = (λ h. ground (arith, eq_iff a b), λ h. ground (arith, eq_iff a b))

is_null_iff : (a : Option String) → (is_null a ≡ true) ↔ (a ≡ none)
is_null_iff none = (λ h. refl, λ h. refl)
is_null_iff (some a) = (λ h. cc, λ h. cc)

matches_iff : (r : OciRef) (e : RegistryEntry) → (matches r e ≡ true) ↔ Matches r e
matches_iff r e =
    let a = eq_iff e.oci_ref.registry r.registry in
    let b = eq_iff e.oci_ref.repository r.repository in
    let c = is_same_iff e.oci_ref.tag r.tag in
    let d = is_null_iff r.tag in
    let f = is_same_iff e.oci_ref.digest r.digest in
    (
      λ h. (
        a.0 (ground arith),
        b.0 (ground arith),
        elim (Bool-cases (is_same e.oci_ref.tag r.tag)) [
          | inl t ↦ inl (c.0 t)
          | inr t ↦ inr (d.0 (ground arith), f.0 (ground arith))
        ],
      ),
      λ (x, y, z). rw (a.1 x, b.1 y) (either z c.1 d.1 f.1),
    )
  where
    either :
        ((e.oci_ref.tag ≡ r.tag) ⊎ ((r.tag ≡ none) × (e.oci_ref.digest ≡ r.digest)))
        → (e.oci_ref.tag ≡ r.tag → is_same e.oci_ref.tag r.tag ≡ true)
        → (r.tag ≡ none → is_null r.tag ≡ true)
        → (e.oci_ref.digest ≡ r.digest → is_same e.oci_ref.digest r.digest ≡ true)
        → (is_same e.oci_ref.tag r.tag || (is_null r.tag && is_same e.oci_ref.digest r.digest))
          ≡ true
    either (inl t) c d f = rw (c t) refl
    either (inr (t, u)) c d f = let p = d t in let q = f u in ground arith

select-IsRow :
    (r : OciRef) (rows : Components) (e : RegistryEntry)
    → IsRow e (select (matches r) rows)
    → IsRow e rows × Matches r e
select-IsRow r [] e h = absurd h
select-IsRow r (x ∷ rows) e h = elim (Bool-cases (matches r x)) [
  | inl t ↦ at_head t (rw t at h) (select-IsRow r rows e)
  | inr t ↦ let (a, b) = select-IsRow r rows e (rw t at h) in (inr a, b)
]
  where
    at_head :
        matches r x ≡ true
        → (x ≡ e) ⊎ IsRow e (select (matches r) rows)
        → (IsRow e (select (matches r) rows) → IsRow e rows × Matches r e)
        → IsRow e (x ∷ rows) × Matches r e
    at_head t (inl p) later = (inl p, subst (Matches r) p ((matches_iff r x).0 t))
    at_head t (inr q) later = let (a, b) = later q in (inr a, b)

-- What the selected rows satisfy, the others satisfy if they match.
All-select :
    (r : OciRef) (P : RegistryEntry → Type 0) (rows : Components)
    → All P (select (matches r) rows)
    → All (λ x. Matches r x → P x) rows
All-select r P [] h = tt
All-select r P (x ∷ rows) h = elim (Bool-cases (matches r x)) [
  | inl t ↦
      let h' : All P (x ∷ select (matches r) rows) = rw t at h in
      (λ m. h'.0, All-select r P rows h'.1)
  | inr t ↦ (λ m. absurd (ground (arith, (matches_iff r x).1 m)), All-select r P rows (rw t at h))
]

-- A reference is resolved to the newest of the rows that it stands for, and to none only if it stands
-- for no row.
pub resolve-cases :
    (r : OciRef) (rows : Components)
    → ((e : RegistryEntry) × (resolve r rows ≡ some e)
        × IsRow e rows
        × Matches r e
        × All (λ x. Matches r x → created x ≤ created e) rows)
      ⊎ ((resolve r rows ≡ none) × All (λ x. ¬ Matches r x) rows)
unfolding resolve
resolve-cases r rows = go (select (matches r) rows) refl
  where
    go :
        (found : Components)
        → select (matches r) rows ≡ found
        → ((e : RegistryEntry) × (resolve r rows ≡ some e)
            × IsRow e rows
            × Matches r e
            × All (λ x. Matches r x → created x ≤ created e) rows)
          ⊎ ((resolve r rows ≡ none) × All (λ x. ¬ Matches r x) rows)
    go [] q = inr (rw (q, resolve) refl, All-select r (λ x. ⊥) rows (rw q tt))
    go (x ∷ found) q =
        let (e, p, (row, newest)) = order_by_desc-first x found in
        let (here, fits) = select-IsRow r rows e (subst (IsRow e) (sym q) row) in
        inl (
          e,
          ap (λ l. first (order_by_desc created l)) q ∙ p,
          here,
          fits,
          All-select r (λ y. created y ≤ created e) rows
              (subst (All (λ y. created y ≤ created e)) (sym q) newest),
        )

-- Among rows without a tag the digest that is asked for plays no part: a reference without a tag is
-- resolved to the same row whatever its digest is.
pub resolve-any_digest :
    (r : OciRef) (digest : Option String) (rows : Components)
    → r.tag ≡ none
    → All (λ e. e.oci_ref.tag ≡ none) rows
    → resolve (record r { digest = digest }) rows ≡ resolve r rows
unfolding resolve
resolve-any_digest r digest rows t a = ap (λ l. first (order_by_desc created l)) (same rows a)
  where
    same :
        (rows : Components)
        → All (λ e. e.oci_ref.tag ≡ none) rows
        → select (matches (record r { digest = digest })) rows ≡ select (matches r) rows
    same [] a = refl
    same (e ∷ rows) a =
        let tags : is_same e.oci_ref.tag r.tag ≡ true =
          (is_same_iff e.oci_ref.tag r.tag).1 (a.0 ∙ sym t) in
        ground (arith, same rows a.1, tags)
