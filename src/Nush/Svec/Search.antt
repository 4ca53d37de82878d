-- ===== src/Nush/Svec/Search.antt =====
-- `svec_index_of` and `strcmp`.
use mathlib.Core.Option
use cs.Base.{
  ℕ, zero, suc, ◌+◌, ◌<◌, ◌≡◌, ◌≢◌, ◌↔◌, refl, ◌∙◌, ap, List, [], ◌∷◌, map, true, false, Option,
  none, some, ret, Succeeds, length, take, drop, get_or, All, if◌then◌else◌, arith, length-map,
  read-drop_cons, Bool-cases, inl, inr, Bool-cases, inl, inr,
}
use cs.Nush.Svec.{Str, str_eq, Slot, text, Svec, strcmp_slot, index_of_from, svec_index_of}
use cs.Nush.Svec.Valid.{IsValid, contents, length-contents}

-- The first place of a string in a list: what `svec_index_of` is to return.
unfoldable pub find_index : Str → List Str → Option ℕ
find_index item [] = none
find_index item (w ∷ ws) = if str_eq w item then some 0 else Option.map suc (find_index item ws)

map_shift :
    (ii : ℕ) (o : Option ℕ)
    → Option.map (λ k. ii + 1 + k) o ≡ Option.map (λ k. ii + k) (Option.map suc o)
map_shift ii none = refl
map_shift ii (some k) = ap some (let e : ii + 1 + k ≡ ii + suc k = omega arith in e)

index_of_from-find_index :
    (item : Str) (n ii : ℕ) (slots : List Slot) (ws : List Str)
    → length ws ≡ n
    → take n (drop ii slots) ≡ map text ws
    → index_of_from n ii slots item ≡ ret (Option.map (λ k. ii + k) (find_index item ws))
unfolding index_of_from find_index strcmp_slot
index_of_from-find_index item zero ii slots [] e t = refl
index_of_from-find_index item zero ii slots (w ∷ ws) e t = absurd (omega arith)
index_of_from-find_index item (suc n) ii slots [] e t = absurd (omega arith)
index_of_from-find_index item (suc n) ii slots (w ∷ ws) e t =
    let (found, later) = read-drop_cons slots ii n (text w) (map text ws) t in
    let ih = index_of_from-find_index item n (ii + 1) slots ws (omega arith) later in
    rw found (elim (Bool-cases (str_eq w item)) [
      | inl same ↦ rw same (ap (λ k. ret (some k)) (let e' : ii ≡ ii + 0 = omega arith in e'))
      | inr other ↦ rw (other, ih) (ap ret (map_shift ii (find_index item ws)))
    ])

map_zero : (o : Option ℕ) → Option.map (λ k. 0 + k) o ≡ o
map_zero none = refl
map_zero (some k) = ap some (omega arith)

pub svec_index_of-find_index :
    (sv : Svec) (item : Str) (ws : List Str)
    → IsValid sv
    → contents sv ≡ map text ws
    → svec_index_of sv item ≡ ret (find_index item ws)
unfolding svec_index_of
svec_index_of-find_index sv item ws v e =
    index_of_from-find_index item sv.spaces 0 sv.slots ws
      (omega (arith, length-contents v, ap length e, length-map ws text)) e
    ∙ ap ret (map_zero (find_index item ws))

-- `strcmp(a, b) == 0` is equality of strings.
pub str_eq_iff : (a b : Str) → (str_eq a b ≡ true) ↔ (a ≡ b)
unfolding str_eq
str_eq_iff [] [] = (λ _. refl, λ _. refl)
str_eq_iff [] (y ∷ ys) = (λ e. cc, λ e. cc)
str_eq_iff (x ∷ xs) [] = (λ e. cc, λ e. cc)
str_eq_iff (x ∷ xs) (y ∷ ys) =
    (λ e. ground (arith, (str_eq_iff xs ys).0), λ e. ground (arith, (str_eq_iff xs ys).1))

pub str_eq-ne : (a b : Str) → str_eq a b ≡ false → a ≢ b
str_eq-ne a b e same = let e' : str_eq a b ≡ true = (str_eq_iff a b).1 same in cc

-- What it means to have looked for an item: nowhere, or at its first place.
abbrev pub FirstAt : Str → List Str → Option ℕ → Type 0
FirstAt item ws none = All (λ w. w ≢ item) ws
FirstAt item ws (some k) =
    (k < length ws) × (get_or ws k [] ≡ item) × All (λ w. w ≢ item) (take k ws)

FirstAt-cons :
    (item w : Str) (ws : List Str) (o : Option ℕ)
    → w ≢ item
    → FirstAt item ws o
    → FirstAt item (w ∷ ws) (Option.map suc o)
FirstAt-cons item w ws none h f = (h, f)
FirstAt-cons item w ws (some k) h (lt, e, before) = (omega arith, e, (h, before))

pub find_index-FirstAt : (item : Str) (ws : List Str) → FirstAt item ws (find_index item ws)
unfolding find_index
find_index-FirstAt item [] = tt
find_index-FirstAt item (w ∷ ws) = elim (Bool-cases (str_eq w item)) [
  | inl same ↦ rw same (omega arith, (str_eq_iff w item).0 same, tt)
  | inr other ↦ rw other (
      FirstAt-cons item w ws (find_index item ws) (str_eq-ne w item other)
        (find_index-FirstAt item ws))
]

-- `svec_index_of` does not fault on a valid vector of strings: it returns the first place of the
-- item, or -1 when no string of the vector equals it.
pub svec_index_of-FirstAt :
    (sv : Svec) (item : Str) (ws : List Str)
    → IsValid sv
    → contents sv ≡ map text ws
    → Succeeds (svec_index_of sv item) (FirstAt item ws)
svec_index_of-FirstAt sv item ws v e =
    (find_index item ws, svec_index_of-find_index sv item ws v e, find_index-FirstAt item ws)
