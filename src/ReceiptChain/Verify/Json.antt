-- ===== src/ReceiptChain/Verify/Json.antt =====
-- JSON values of which a hash is a symbol, and their laws.
use dingdongditch.Prelude.{
  arith, ℕ, ◌≡◌, refl, sym, ap, ◌∙◌, Bool-cases, inl, inr, String, Bool, true, false, not, ◌&&◌,
  ◌||◌, List, [], ◌∷◌, map, if◌then◌else◌, nat_beq,
}
use Prim.Native.String.{compare}
use Prim.Native.Nat.{Ordering}
use mathlib.Core.Logic.{ite}
use text.Mathlib.Text.{is_le, is_eq}
use text.Mathlib.TextEquality.{eq_iff}
use native.Mathlib.Decide.{ℕ_discrete}
use dingdongditch.Prelude.Equality.{◌==◌, ==→eq, contains, string_eq}
use dingdongditch.ReceiptChain.{Values}
use dingdongditch.ReceiptChain.Verify.Sealing.{Storing}
use dingdongditch.ReceiptChain.Verify.Laws.{Lawful, CollisionFree, keys_of, lookup_or}

pub data Json : Type 0 where
  nothing empty_list empty_dict : Json
  word : String → Json
  count : ℕ → Json
  boolean : Bool → Json
  item : Json → Json → Json
  entry : String → Json → Json → Json
  hash old_hash : Json → Json

unfoldable pub String-discrete : Discrete String
unfolding string_eq
String-discrete = string_eq.dec

unfoldable pub Json-discrete : Discrete Json
unfolding String-discrete
Json-discrete = hlevel (String-discrete, ℕ_discrete)

abbrev pub array_of : List Json → Json
array_of [] = empty_list
array_of (x ∷ xs) = item x (array_of xs)

abbrev pub dict_of : List (String × Json) → Json
dict_of [] = empty_dict
dict_of ((k, v) ∷ d) = entry k v (dict_of d)

abbrev pub get_of : Json → String → Json
get_of (entry k v d) key = if k == key then v else get_of d key
get_of _ key = nothing

abbrev pub has_key : Json → String → Bool
has_key (entry k v d) key = k == key || has_key d key
has_key _ key = false

abbrev pub put_key : Json → String → Json → Json
put_key (entry k v d) key x = if k == key then entry k x d else entry k v (put_key d key x)
put_key d key x = entry key x empty_dict

abbrev pub drop_keys : List String → Json → Json
drop_keys known (entry k v d) =
    let rest = drop_keys known d in if contains known k then rest else entry k v rest
drop_keys known _ = empty_dict

abbrev pub is_dict : Json → Bool
is_dict empty_dict = true
is_dict (entry k v d) = true
is_dict _ = false

abbrev pub is_word : Json → Bool
is_word (word s) = true
is_word (hash x) = true
is_word (old_hash x) = true
is_word _ = false

abbrev pub is_truthy : Json → Bool
is_truthy nothing = false
is_truthy empty_list = false
is_truthy empty_dict = false
is_truthy (word s) = not (s == "")
is_truthy (count n) = not (nat_beq n 0)
is_truthy (boolean b) = b
is_truthy _ = true

abbrev pub items : Json → List Json
items (item x xs) = x ∷ items xs
items _ = []

-- `_canonical` of these values: texts are normalized, and dicts are sorted by their keys. Enums,
-- dataclasses, sets and floats are none of them.
abbrev pub key_le : String → String → Bool
key_le k l = is_le (compare k l)

abbrev pub insert : String → Json → Json → Json
insert k v (entry l w d) =
    let rest = insert k v d in if key_le k l then entry k v (entry l w d) else entry l w rest
insert k v d = entry k v d

abbrev pub canonical : (String → String) → Json → Json
canonical normalize (word s) = word (normalize s)
canonical normalize (item x xs) = item (canonical normalize x) (canonical normalize xs)
canonical normalize (entry k v d) = insert k (canonical normalize v) (canonical normalize d)
canonical normalize x = x

-- Python's `==` of values whose dicts are sorted: a Boolean is the number 0 or 1.
abbrev pub as_number : Bool → ℕ
as_number true = 1
as_number false = 0

abbrev pub loosely : Json → Json → Bool
loosely nothing nothing = true
loosely empty_list empty_list = true
loosely empty_dict empty_dict = true
loosely (word s) (word t) = s == t
loosely (count m) (count n) = nat_beq m n
loosely (count m) (boolean b) = nat_beq m (as_number b)
loosely (boolean b) (count n) = nat_beq (as_number b) n
loosely (boolean b) (boolean c) = nat_beq (as_number b) (as_number c)
loosely (item x xs) (item y ys) = loosely x y && loosely xs ys
loosely (entry k v d) (entry l w e) = k == l && loosely v w && loosely d e
loosely (hash x) (hash y) = ite (Json-discrete x y) true false
loosely (old_hash x) (old_hash y) = ite (Json-discrete x y) true false
loosely _ _ = false

abbrev pub sort_keys : Json → Json
sort_keys = canonical (λ s. s)

-- The values for a normalization of texts. Hashes and bytes are symbols, and normalization leaves a
-- hash as it is. Every text is 64 characters long here; `str` and `sorted` change nothing.
abbrev pub json_by : (String → String) → Values
json_by normalize = record {
  Value = Json;
  equals = λ x y. loosely (sort_keys x) (sort_keys y);
  null = nothing;
  text = word;
  number = count;
  flag = boolean;
  array = array_of;
  dict = dict_of;
  get = get_of;
  has = has_key;
  put = put_key;
  without = drop_keys;
  is_mapping = is_dict;
  is_text = is_word;
  truthy = is_truthy;
  elements = items;
  to_text = λ x. x;
  text_length = λ x. 64;
  Bytes = Json;
  canonical_json_bytes = canonical normalize;
  sha256 = hash;
  legacy_digest = old_hash;
  sorted = λ pairs. pairs;
}

-- A normalization that composes one letter
abbrev pub composed : String → String
composed s = if s == "é" then "é" else s

abbrev pub json : Values
json = json_by composed

get_of-dict_of :
    (d : List (String × Json)) (key : String) → get_of (dict_of d) key ≡ lookup_or nothing key d
get_of-dict_of [] key = refl
get_of-dict_of ((k, v) ∷ d) key = ap (λ rest. if k == key then v else rest) (get_of-dict_of d key)

dict_of-injective : (d e : List (String × Json)) → dict_of d ≡ dict_of e → d ≡ e
dict_of-injective [] [] h = refl
dict_of-injective [] (y ∷ e) h = cc
dict_of-injective (x ∷ d) [] h = cc
dict_of-injective ((k, v) ∷ d) ((k', v') ∷ e) h =
    let rest = dict_of-injective d e cc in cc (rest, h)

is_eq-is_le : (o : Ordering) → is_eq o ≡ true → is_le o ≡ true
is_eq-is_le Ordering.lt h = refl
is_eq-is_le Ordering.eq h = refl
is_eq-is_le Ordering.gt h = cc

key_le_refl : (k l : String) → (k == l) ≡ true → key_le k l ≡ true
key_le_refl k l h = is_eq-is_le _ ((eq_iff k l).1 (==→eq k l h))

loosely_refl : (x : Json) → loosely x x ≡ true
loosely_refl (item x xs) = ground (arith, loosely_refl x, loosely_refl xs)
loosely_refl (entry k v d) = ground (arith, loosely_refl v, loosely_refl d)
loosely_refl _ = ground arith

loosely-is_word : (x y : Json) → is_word y ≡ true → loosely x y ≡ true → x ≡ y
loosely-is_word (word s) (word t) is h = ap word (==→eq s t h)
loosely-is_word (hash x) (hash y) is h = ground arith
loosely-is_word (old_hash x) (old_hash y) is h = ground arith
loosely-is_word _ (word t) is h = cc
loosely-is_word _ _ is h = cc

is_word-loosely : (x y : Json) → is_word x ≡ true → loosely x y ≡ true → x ≡ y
is_word-loosely (word s) (word t) is h = ap word (==→eq s t h)
is_word-loosely (hash x) (hash y) is h = ground arith
is_word-loosely (old_hash x) (old_hash y) is h = ground arith
is_word-loosely _ _ is h = cc

loosely-nothing : (x : Json) → loosely x nothing ≡ true → x ≡ nothing
loosely-nothing nothing h = refl
loosely-nothing _ h = cc

loosely-is_truthy : (x y : Json) → loosely x y ≡ true → is_truthy x ≡ is_truthy y
loosely-is_truthy (word s) (word t) h = ap (λ u. not (u == "")) (==→eq s t h)
loosely-is_truthy (count m) (count n) h = ground arith
loosely-is_truthy (count m) (boolean true) h = ground arith
loosely-is_truthy (count m) (boolean false) h = ground arith
loosely-is_truthy (boolean true) (count n) h = ground arith
loosely-is_truthy (boolean false) (count n) h = ground arith
loosely-is_truthy (boolean true) (boolean true) h = refl
loosely-is_truthy (boolean false) (boolean false) h = refl
loosely-is_truthy (item x xs) (item y ys) h = refl
loosely-is_truthy (entry k v d) (entry l w e) h = refl
loosely-is_truthy (hash x) (hash y) h = refl
loosely-is_truthy (old_hash x) (old_hash y) h = refl
loosely-is_truthy nothing nothing h = refl
loosely-is_truthy empty_list empty_list h = refl
loosely-is_truthy empty_dict empty_dict h = refl
loosely-is_truthy _ _ h = cc

loosely-get_of :
    (x y : Json) (key : String) → loosely x y ≡ true → loosely (get_of x key) (get_of y key) ≡ true
loosely-get_of (entry k v d) (entry l w e) key h = ground (arith, ==→eq k l, loosely-get_of d e key)
loosely-get_of (entry k v d) _ key h = cc
loosely-get_of nothing nothing key h = refl
loosely-get_of empty_list empty_list key h = refl
loosely-get_of empty_dict empty_dict key h = refl
loosely-get_of (word s) (entry l w e) key h = cc
loosely-get_of (word s) _ key h = refl
loosely-get_of (count m) (entry l w e) key h = cc
loosely-get_of (count m) _ key h = refl
loosely-get_of (boolean b) (entry l w e) key h = cc
loosely-get_of (boolean b) _ key h = refl
loosely-get_of (item x xs) (entry l w e) key h = cc
loosely-get_of (item x xs) _ key h = refl
loosely-get_of (hash x) (entry l w e) key h = cc
loosely-get_of (hash x) _ key h = refl
loosely-get_of (old_hash x) (entry l w e) key h = cc
loosely-get_of (old_hash x) _ key h = refl
loosely-get_of _ _ key h = cc

-- A sorted dict is a dict, and holds what it held.
insert-is_word : (k : String) (v d : Json) → is_word (insert k v d) ≡ false
insert-is_word k v (entry l w d) = ground arith
insert-is_word k v _ = refl

insert-is_truthy : (k : String) (v d : Json) → is_truthy (insert k v d) ≡ true
insert-is_truthy k v (entry l w d) = ground arith
insert-is_truthy k v _ = refl

get_of-insert :
    (k : String) (v d : Json) (key : String)
    → get_of (insert k v d) key ≡ (if k == key then v else get_of d key)
get_of-insert k v (entry l w d) key =
    ground (arith, get_of-insert k v d key, key_le_refl k l, ==→eq k key, ==→eq l key)
get_of-insert k v _ key = refl

get_of-sort_keys : (d : Json) (key : String) → get_of (sort_keys d) key ≡ sort_keys (get_of d key)
get_of-sort_keys (entry k v d) key =
    ground (arith, get_of-insert k (sort_keys v) (sort_keys d) key, get_of-sort_keys d key)
get_of-sort_keys _ key = refl

is_truthy-sort_keys : (x : Json) → is_truthy (sort_keys x) ≡ is_truthy x
is_truthy-sort_keys (entry k v d) = insert-is_truthy k (sort_keys v) (sort_keys d)
is_truthy-sort_keys _ = refl

-- A value that is sorted to a text is the text.
sort_keys-is_word : (x : Json) → is_word (sort_keys x) ≡ true → sort_keys x ≡ x
sort_keys-is_word (item x xs) h = cc
sort_keys-is_word (entry k v d) h = cc (h, insert-is_word k (sort_keys v) (sort_keys d))
sort_keys-is_word _ h = refl

is_word-sort_keys : (x : Json) → is_word x ≡ true → sort_keys x ≡ x
is_word-sort_keys (item x xs) h = cc
is_word-sort_keys (entry k v d) h = cc
is_word-sort_keys _ h = refl

sort_keys-nothing : (x : Json) → sort_keys x ≡ nothing → x ≡ nothing
sort_keys-nothing nothing h = refl
sort_keys-nothing (entry k v d) h =
    absurd (ground (arith, insert-is_truthy k (sort_keys v) (sort_keys d), ap is_truthy h))
sort_keys-nothing _ h = cc

-- The law of texts, on either side of `==`
equals-is_word :
    (x y : Json) → is_word y ≡ true → loosely (sort_keys x) (sort_keys y) ≡ true → x ≡ y
equals-is_word x y is h =
    let sorted = is_word-sort_keys y is in
    let same = loosely-is_word (sort_keys x) y is (rw sorted at h) in
    sym (sort_keys-is_word x (ap is_word same ∙ is)) ∙ same

is_word-equals :
    (x y : Json) → is_word x ≡ true → loosely (sort_keys x) (sort_keys y) ≡ true → x ≡ y
is_word-equals x y is h =
    let sorted = is_word-sort_keys x is in
    let same = is_word-loosely x (sort_keys y) is (rw sorted at h) in
    same ∙ sort_keys-is_word y (ap is_word (sym same) ∙ is)

-- Dicts of the same keys, sorted
data SameKeys : Json → Json → Type 0 where
  no_keys : SameKeys empty_dict empty_dict
  next_key :
      (l : String) (x y : Json) {d e : Json} → SameKeys d e → SameKeys (entry l x d) (entry l y e)

insert-SameKeys :
    (k : String) (v w : Json) {d e : Json} → SameKeys d e → SameKeys (insert k v d) (insert k w e)
insert-SameKeys k v w no_keys = next_key k v w no_keys
insert-SameKeys k v w (next_key l x y s) = elim (Bool-cases (key_le k l)) [
  | inl le ↦ rw le (next_key k v w (next_key l x y s))
  | inr gt ↦ rw gt (next_key l x y (insert-SameKeys k v w s))
]

insert-injective :
    (k : String) (v w : Json) {d e : Json}
    → SameKeys d e
    → insert k v d ≡ insert k w e
    → (v ≡ w) × (d ≡ e)
insert-injective k v w no_keys h = (cc, refl)
insert-injective k v w (next_key l x y s) h = elim (Bool-cases (key_le k l)) [
  | inl le ↦ let same = rw le at h in (cc, cc)
  | inr gt ↦
      let same = rw gt at h in let (values, rest) = insert-injective k v w s cc in (values, cc)
]

canonical-SameKeys :
    (normalize : String → String) (d e : List (String × Json))
    → keys_of d ≡ keys_of e
    → SameKeys (canonical normalize (dict_of d)) (canonical normalize (dict_of e))
canonical-SameKeys normalize [] [] h = no_keys
canonical-SameKeys normalize [] (y ∷ e) h = cc
canonical-SameKeys normalize (x ∷ d) [] h = cc
canonical-SameKeys normalize ((k, v) ∷ d) ((l, w) ∷ e) h =
    let same : k ≡ l = cc in rw same (insert-SameKeys l _ _ (canonical-SameKeys normalize d e cc))

canonical-dict_of :
    (normalize : String → String) (d e : List (String × Json))
    → keys_of d ≡ keys_of e
    → canonical normalize (dict_of d) ≡ canonical normalize (dict_of e)
    → map (λ entry. canonical normalize entry.1) d ≡ map (λ entry. canonical normalize entry.1) e
canonical-dict_of normalize [] [] h same = refl
canonical-dict_of normalize [] (y ∷ e) h same = cc
canonical-dict_of normalize (x ∷ d) [] h same = cc
canonical-dict_of normalize ((k, v) ∷ d) ((l, w) ∷ e) h same =
    let key : k ≡ l = cc in
    let keys = canonical-SameKeys normalize d e cc in
    let (first, rest) = insert-injective l (canonical normalize v) (canonical normalize w) keys (
      ap (λ u. insert u (canonical normalize v) (canonical normalize (dict_of d))) (sym key)
      ∙ same) in
    cc (first, canonical-dict_of normalize d e (cc) rest)

pub json_free : (normalize : String → String) → CollisionFree (json_by normalize)
json_free normalize = record {
  sha256_injective = λ b c same. cc;
  bytes-dict = λ d e distinct keys same. canonical-dict_of normalize d e keys same;
  bytes-sha256 = λ b c same. same;
}

pub json_lawful : (normalize : String → String) → Lawful (json_by normalize)
json_lawful normalize = record {
  get-dict = λ d key distinct. get_of-dict_of d key;
  truthy-dict = λ kv d. refl;
  text_injective = λ s t same. cc;
  is_text-text = λ s. refl;
  is_text-sha256 = λ b. refl;
  equals_refl = λ x. loosely_refl (sort_keys x);
  equals_text = equals-is_word;
  text_equals = is_word-equals;
  equals-null = λ x h. sort_keys-nothing x (loosely-nothing (sort_keys x) h);
  equals-truthy = λ x y h.
      sym (is_truthy-sort_keys x)
      ∙ loosely-is_truthy (sort_keys x) (sort_keys y) h
      ∙ is_truthy-sort_keys y;
  equals-get = λ d entries key distinct h.
      (rw
        (
          sym (get_of-sort_keys d key),
          sym (get_of-dict_of entries key),
          sym (get_of-sort_keys (dict_of entries) key),
        )
        (loosely-get_of (sort_keys d) (sort_keys (dict_of entries)) key h));
}

get_of-put_key : (d : Json) (key : String) (v : Json) → get_of (put_key d key v) key ≡ v
get_of-put_key (entry k x d) key v = ground (arith, get_of-put_key d key v)
get_of-put_key _ key v = ground arith

get_of-put_key_other :
    (d : Json) (key other : String) (v : Json)
    → (key == other) ≡ false
    → get_of (put_key d key v) other ≡ get_of d other
get_of-put_key_other (entry k x d) key other v h =
    ground (arith, get_of-put_key_other d key other v h)
get_of-put_key_other _ key other v h = ground arith

has_key-put_key :
    (d : Json) (key other : String) (v : Json)
    → (key == other) ≡ false
    → has_key (put_key d key v) other ≡ has_key d other
has_key-put_key (entry k x d) key other v h = ground (arith, has_key-put_key d key other v h)
has_key-put_key _ key other v h = ground arith

drop_keys-put_key :
    (d : Json) (key : String) (v : Json) (known : List String)
    → contains known key ≡ true
    → drop_keys known (put_key d key v) ≡ drop_keys known d
drop_keys-put_key (entry k x d) key v known h = ground (arith, drop_keys-put_key d key v known h)
drop_keys-put_key _ key v known h = ground arith

is_dict-dict_of : (d : List (String × Json)) → is_dict (dict_of d) ≡ true
is_dict-dict_of [] = refl
is_dict-dict_of ((k, v) ∷ d) = refl

pub json_storing : (normalize : String → String) → Storing (json_by normalize)
json_storing normalize = record {
  get-put = get_of-put_key;
  get-put_other = get_of-put_key_other;
  has-put_other = has_key-put_key;
  without-put = drop_keys-put_key;
  is_mapping-dict = is_dict-dict_of;
}
