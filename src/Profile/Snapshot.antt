-- ===== src/Profile/Snapshot.antt =====
-- tuntop/config/models.py: a profile survives being written to a snapshot and read back.
use tun_top.Prelude.{
  ◌≡◌, refl, sym, ◌∙◌, ap, String, Bool, true, false, ◌||◌, Option, none, some, List, [], ◌∷◌,
  if◌then◌else◌, arith, All, Bool-cases, inl, inr,
}
use tun_top.Profile.{
  Field, server, bypass_ip, vpn_bypass_ip, proxy2_bypass_ip, proxy2_server, dns_guard_exempt, Value,
  atom, items, mapping, nothing, str, truth, int, Atom, Profile, set, same_field, field_place,
  is_list_field, default_get, default_profile, field_of, load_field, set_list, load, from_snapshot,
  rows, dump, to_snapshot, row_value,
}

-- The value is a list.
abbrev pub IsItems : Value → Type 0
IsItems v = (xs : List Atom) × (v ≡ items xs)

-- Every setting that holds a list holds one.
pub record IsTyped (p : Profile) : Type 0 where
  pub lists : (f : Field) → is_list_field f ≡ true → IsItems (p.get f)

same_field→eq : (a b : Field) → same_field a b ≡ true → a ≡ b
unfolding same_field field_place
same_field→eq a b h = ground arith

set-IsTyped :
    (f : Field) (v : Value) (p : Profile)
    → (is_list_field f ≡ true → IsItems v)
    → IsTyped p
    → IsTyped (set f v p)
unfolding set
set-IsTyped f v p hv h = record {
  lists = λ g l. elim (Bool-cases (same_field g f)) [
    | inl y ↦ rw y (hv (ap is_list_field (sym (same_field→eq g f y)) ∙ l))
    | inr n ↦ rw n (h.lists g l)
  ];
}

set_list-IsTyped : (f : Field) (v : Value) (p : Profile) → IsTyped p → IsTyped (set_list f v p)
unfolding set_list
set_list-IsTyped f (atom nothing) p h = set-IsTyped f (items []) p (λ l. ([], refl)) h
set_list-IsTyped f (atom (str s)) p h =
    set-IsTyped f (items (str s ∷ [])) p (λ l. (str s ∷ [], refl)) h
set_list-IsTyped f (atom (truth b)) p h = h
set_list-IsTyped f (atom (int n)) p h = h
set_list-IsTyped f (items xs) p h = set-IsTyped f (items xs) p (λ l. (xs, refl)) h
set_list-IsTyped f (mapping keys) p h = h

load_field-IsTyped :
    (o : Option Field) (v : Value) (p : Profile) → IsTyped p → IsTyped (load_field o v p)
unfolding load_field
load_field-IsTyped none v p h = h
load_field-IsTyped (some f) v p h = elim (Bool-cases (is_list_field f)) [
  | inl y ↦ rw y (set_list-IsTyped f v p h)
  | inr n ↦ rw n (set-IsTyped f v p (λ l. absurd (cc)) h)
]

name-set_list : (f : Field) (v : Value) (p : Profile) → (set_list f v p).name ≡ p.name
unfolding set_list set
name-set_list f v p = ground arith

name-load_field : (o : Option Field) (v : Value) (p : Profile) → (load_field o v p).name ≡ p.name
unfolding load_field set
name-load_field none v p = refl
name-load_field (some f) v p = elim (Bool-cases (is_list_field f)) [
  | inl y ↦ rw y (name-set_list f v p)
  | inr n ↦ rw n
]

load-IsTyped : (snap : List (String × Value)) (p : Profile) → IsTyped p → IsTyped (load snap p)
unfolding load
load-IsTyped [] p h = h
load-IsTyped ((k, v) ∷ snap) p h =
    load-IsTyped snap (load_field (field_of k) v p) (load_field-IsTyped (field_of k) v p h)

name-load : (snap : List (String × Value)) (p : Profile) → (load snap p).name ≡ p.name
unfolding load
name-load [] p = refl
name-load ((k, v) ∷ snap) p =
    name-load snap (load_field (field_of k) v p) ∙ name-load_field (field_of k) v p

defaults : (f : Field) → is_list_field f ≡ true → IsItems (default_get f)
unfolding is_list_field default_get
defaults server l = ([], refl)
defaults bypass_ip l = ([], refl)
defaults vpn_bypass_ip l = ([], refl)
defaults proxy2_bypass_ip l = ([], refl)
defaults proxy2_server l = ([], refl)
defaults dns_guard_exempt l = ([], refl)
defaults _ l = absurd (cc)

-- Whatever a snapshot holds: the profile keeps the name that it was asked for, and each setting that
-- is a list is a list, never a text that would be read letter by letter.
pub from_snapshot-IsTyped :
    (name : String) (snap : List (String × Value))
    → ((from_snapshot name snap).name ≡ name) × IsTyped (from_snapshot name snap)
unfolding from_snapshot
from_snapshot-IsTyped name snap = (
  name-load snap (default_profile name),
  load-IsTyped snap (default_profile name) (record { lists = defaults }),
)

-- A row names an attribute by the key that reads it, and copies exactly the lists.
abbrev IsRow : String × (Field × Bool) → Type 0
IsRow (k, (f, copy)) = (field_of k ≡ some f) × (copy ≡ is_list_field f)

rows-IsRow : All IsRow rows
unfolding field_of is_list_field
rows-IsRow = ground arith

unfoldable covers : Field → List (String × (Field × Bool)) → Bool
covers g [] = false
covers g ((k, (f, copy)) ∷ rest) = let later = covers g rest in same_field g f || later

rows-cover : (g : Field) → covers g rows ≡ true
unfolding covers same_field field_place
rows-cover g = ground arith

-- Reading one row back sets its attribute.
load_row :
    (f : Field) (v : Value) (q : Profile)
    → (is_list_field f ≡ true → IsItems v)
    → load_field (some f) v q ≡ set f v q
unfolding load_field
load_row f v q h = elim (Bool-cases (is_list_field f)) [
  | inl y ↦ let (xs, e) = h y in rw (y, e, set_list)
  | inr n ↦ rw n
]

row_value-IsTyped :
    (f : Field) (copy : Bool) (p : Profile)
    → copy ≡ is_list_field f
    → IsTyped p
    → row_value copy (p.get f) ≡ some (p.get f)
row_value-IsTyped f false p e h = refl
row_value-IsTyped f true p e h = let (xs, q) = h.lists f (sym e) in rw q

set_or_kept :
    (b : Bool) (f g : Field) (p q : Profile)
    → (if b then p.get g else (set f (p.get f) q).get g)
      ≡ (if same_field g f || b then p.get g else q.get g)
unfolding set
set_or_kept b f g p q = elim (Bool-cases (same_field g f)) [
  | inl y ↦ rw (y, same_field→eq g f y) (ground arith)
  | inr n ↦ rw n
]

dump-load :
    (rs : List (String × (Field × Bool))) (p : Profile)
    → All IsRow rs
    → IsTyped p
    → (snap : List (String × Value)) × (dump rs p ≡ some snap)
      × ((q : Profile) (g : Field)
          → (load snap q).get g ≡ (if covers g rs then p.get g else q.get g))
unfolding dump load covers
dump-load [] p a h = ([], refl, λ q g. refl)
dump-load ((k, (f, copy)) ∷ rest) p ((named, e), a) h =
    let (snap, written, read) = dump-load rest p a h in
    (
      (k, p.get f) ∷ snap,
      rw (row_value-IsTyped f copy p e h, written),
      λ q g.
          ap (λ o. (load snap (load_field o (p.get f) q)).get g) named
          ∙ ap (λ r. (load snap r).get g) (load_row f (p.get f) q (h.lists f))
          ∙ read (set f (p.get f) q) g
          ∙ set_or_kept (covers g rest) f g p q,
    )

-- A profile of which the list settings hold lists can be written, and reading what was written back, under
-- any name, gives the profile of that name with every setting as it was.
pub from_snapshot-to_snapshot :
    (name : String) (p : Profile)
    → IsTyped p
    → (snap : List (String × Value)) × (to_snapshot p ≡ some snap)
      × ((from_snapshot name snap).name ≡ name)
      × ((f : Field) → (from_snapshot name snap).get f ≡ p.get f)
unfolding to_snapshot from_snapshot
from_snapshot-to_snapshot name p h =
    let (snap, written, read) = dump-load rows p rows-IsRow h in
    (
      snap,
      written,
      name-load snap (default_profile name),
      λ f. read (default_profile name) f ∙ rw (rows-cover f),
    )
