-- ===== src/Authority/Provenance.antt =====
-- About `merge_provenance` (dingdongditch/contract/authority.py).
use dingdongditch.Prelude.{
  ◌≡◌, refl, true, ◌||◌, List, [], ◌∷◌, ◌++◌, any, arith, Bool-cases, inl, inr,
}
use dingdongditch.Prelude.Equality.{contains, is_distinct, contains-append, is_distinct-snoc}
use dingdongditch.Authority.{
  ProvenanceClass, provenance_eq, merge_group, merge_onto, merge_provenance,
}

contains-merge_group :
    (merged vs : List ProvenanceClass) (a : ProvenanceClass)
    → contains (merge_group merged vs) a ≡ (contains merged a || contains vs a)
unfolding merge_group
contains-merge_group merged [] a = ground arith
contains-merge_group merged (v ∷ vs) a = ground (
  arith,
  contains-merge_group merged vs a,
  contains-merge_group (merged ++ v ∷ []) vs a,
  contains-append merged (v ∷ []) a,
)

contains-merge_onto :
    (merged : List ProvenanceClass) (gs : List (List ProvenanceClass)) (a : ProvenanceClass)
    → contains (merge_onto merged gs) a ≡ (contains merged a || any (λ g. contains g a) gs)
unfolding merge_onto
contains-merge_onto merged [] a = ground arith
contains-merge_onto merged (g ∷ gs) a =
    ground (arith, contains-merge_onto (merge_group merged g) gs a, contains-merge_group merged g a)

is_distinct-merge_group :
    (merged vs : List ProvenanceClass)
    → is_distinct merged ≡ true
    → is_distinct (merge_group merged vs) ≡ true
unfolding merge_group
is_distinct-merge_group merged [] h = h
is_distinct-merge_group merged (v ∷ vs) h = elim (Bool-cases (contains merged v)) [
  | inl old ↦ rw old (is_distinct-merge_group merged vs h)
  | inr new ↦
      rw new (is_distinct-merge_group (merged ++ v ∷ []) vs (is_distinct-snoc merged v h new))
]

is_distinct-merge_onto :
    (merged : List ProvenanceClass) (gs : List (List ProvenanceClass))
    → is_distinct merged ≡ true
    → is_distinct (merge_onto merged gs) ≡ true
unfolding merge_onto
is_distinct-merge_onto merged [] h = h
is_distinct-merge_onto merged (g ∷ gs) h =
    is_distinct-merge_onto (merge_group merged g) gs (is_distinct-merge_group merged g h)

-- A label is in the merged provenance exactly if it is in one of the sources, and the merged
-- provenance lists no label twice.
pub merge_provenance_labels :
    (gs : List (List ProvenanceClass))
    → ((a : ProvenanceClass) → contains (merge_provenance gs) a ≡ any (λ g. contains g a) gs)
      × (is_distinct (merge_provenance gs) ≡ true)
unfolding merge_provenance
merge_provenance_labels gs = (contains-merge_onto [] gs, is_distinct-merge_onto [] gs refl)
