-- ===== src/Startup/Kept.antt =====
-- What a write to the residue record of tuntop/network/residue.py changes, and what it keeps.
use tun_top.Prelude.{
  ◌≡◌, refl, sym, ◌∙◌, subst, ◌⊎◌, inl, inr, Bool, true, false, Option, none, some, [], ◌∷◌,
  if◌then◌else◌, Bool-cases, String, str_eq, eq_iff,
}
use tun_top.Prelude.Int.{pos}
use tun_top.Startup.{int}
use tun_top.Startup.Residue.{
  Json, scalar, Record, Stored, load, get, set, pop, Owner, stamp, changed, Attempts, merge,
}

pub get-set_same : (r : Record) (key : String) (v : Json) → get (set r key v) key ≡ some v
unfolding get set
get-set_same [] key v = rw ((eq_iff key key).1 refl)
get-set_same (row ∷ r) key v = elim (Bool-cases (str_eq row.0 key)) [
  | inl a ↦ rw (a, a)
  | inr a ↦ rw (a, a) (get-set_same r key v)
]

differs : (x key j : String) → str_eq x key ≡ true → str_eq key j ≡ false → str_eq x j ≡ false
differs x key j e d = subst (λ y. str_eq y j ≡ false) (sym ((eq_iff x key).0 e)) d

pub get-set_other :
    (r : Record) (key j : String) (v : Json) → str_eq key j ≡ false → get (set r key v) j ≡ get r j
unfolding get set
get-set_other [] key j v d = rw d
get-set_other (row ∷ r) key j v d = elim (Bool-cases (str_eq row.0 key)) [
  | inl a ↦ let other = differs row.0 key j a d in rw (a, other)
  | inr a ↦ rw a (elim (Bool-cases (str_eq row.0 j)) [
    | inl b ↦ rw b
    | inr b ↦ rw b (get-set_other r key j v d)
  ])
]

get-pop_same : (r : Record) (key : String) → get (pop r key) key ≡ none
unfolding get pop
get-pop_same [] key = refl
get-pop_same (row ∷ r) key = elim (Bool-cases (str_eq row.0 key)) [
  | inl a ↦ rw a (get-pop_same r key)
  | inr a ↦ rw (a, a) (get-pop_same r key)
]

get-pop_other : (r : Record) (key j : String) → str_eq key j ≡ false → get (pop r key) j ≡ get r j
unfolding get pop
get-pop_other [] key j d = refl
get-pop_other (row ∷ r) key j d = elim (Bool-cases (str_eq row.0 key)) [
  | inl a ↦ let other = differs row.0 key j a d in rw (a, other) (get-pop_other r key j d)
  | inr a ↦
      rw a (elim (Bool-cases (str_eq row.0 j)) [
        | inl b ↦ rw b
        | inr b ↦ rw b (get-pop_other r key j d)
      ])
]

-- A key that is not one of the stamp.
abbrev pub IsData : String → Type 0
IsData j =
    (str_eq "version" j ≡ false)
    × (str_eq "pid" j ≡ false)
    × (str_eq "started" j ≡ false)
    × (str_eq "since" j ≡ false)

module _ (me : Owner) where
  get-stamp : (r : Record) (j : String) → IsData j → get (stamp me r) j ≡ get r j
  unfolding stamp
  get-stamp r j (a, b, c, d) =
      get-set_other _ "since" j _ d
      ∙ (get-set_other _ "started" j _ c
          ∙ (get-set_other _ "pid" j _ b ∙ get-set_other r "version" j _ a))

  version-stamp : (r : Record) → get (stamp me r) "version" ≡ some (scalar (int (pos 1)))
  unfolding stamp
  version-stamp r =
      get-set_other _ "since" "version" _ refl
      ∙ (get-set_other _ "started" "version" _ refl
          ∙ (get-set_other _ "pid" "version" _ refl ∙ get-set_same r "version" _))

  pid-stamp : (r : Record) → get (stamp me r) "pid" ≡ some (scalar (int me.pid))
  unfolding stamp
  pid-stamp r =
      get-set_other _ "since" "pid" _ refl
      ∙ (get-set_other _ "started" "pid" _ refl ∙ get-set_same _ "pid" _)

  started-stamp : (r : Record) → get (stamp me r) "started" ≡ some (scalar me.started)
  unfolding stamp
  started-stamp r = get-set_other _ "since" "started" _ refl ∙ get-set_same _ "started" _

  since-stamp : (r : Record) → get (stamp me r) "since" ≡ some (scalar me.since)
  unfolding stamp
  since-stamp r = get-set_same _ "since" _

  changed_same :
      (r : Record) (key : String) (value : Option Json) → get (changed r key value) key ≡ value
  changed_same r key none = get-pop_same r key
  changed_same r key (some v) = get-set_same r key v

  changed_other :
      (r : Record) (key j : String) (value : Option Json)
      → str_eq key j ≡ false
      → get (changed r key value) j ≡ get r j
  changed_other r key j none d = get-pop_other r key j d
  changed_other r key j (some v) d = get-set_other r key j v d

  module _ (tries : Attempts) (key : String) (value : Option Json) (stored : Stored) where
    -- A record in which the key has its new value, every other entry is that of a file that the
    -- write met, and the stamp is there.
    abbrev pub IsMerged : Stored → Record → Type 0
    IsMerged base after =
        (get after key ≡ value)
        × ((j : String) → IsData j → str_eq key j ≡ false → get after j ≡ get (load base) j)
        × (get after "version" ≡ some (scalar (int (pos 1))))
        × (get after "pid" ≡ some (scalar (int me.pid)))
        × (get after "started" ≡ some (scalar me.started))
        × (get after "since" ≡ some (scalar me.since))

    written :
        (base : Stored) → IsData key → IsMerged base (stamp me (changed (load base) key value))
    written base h = (
      get-stamp (changed (load base) key value) key h ∙ changed_same (load base) key value,
      (λ j d n.
          get-stamp (changed (load base) key value) j d ∙ changed_other (load base) key j value n),
      version-stamp (changed (load base) key value),
      pid-stamp (changed (load base) key value),
      started-stamp (changed (load base) key value),
      since-stamp (changed (load base) key value),
    )

    -- Whether the write reports success or not.
    abbrev pub IsMergeOutcome : Bool × Stored → Type 0
    IsMergeOutcome (true, after) =
        IsMerged stored (load after) ⊎ IsMerged (tries.between stored) (load after)
    IsMergeOutcome (false, after) = after ≡ tries.between stored

    -- A write of a key that reports success leaves a record with the new value of that key, or
    -- without it if it was dropped, with every other key but those of the stamp as the file had it
    -- when the attempt began, and with the stamp of the process that wrote: the version, its
    -- number, its creation time and the time of the write. A write that reports failure leaves
    -- what the others wrote.
    pub merge-IsMergeOutcome : IsData key → IsMergeOutcome (merge me tries key value stored)
    unfolding merge load
    merge-IsMergeOutcome h =
        let first : Bool × Stored = (true, some (stamp me (changed (load stored) key value))) in
        let second : Bool × Stored =
          (true, some (stamp me (changed (load (tries.between stored)) key value))) in
        let neither : Bool × Stored = (false, tries.between stored) in
        elim (Bool-cases tries.first) [
          | inl a ↦
              subst
                (λ b.
                  IsMergeOutcome (if b then first else if tries.second then second else neither))
                (sym a) (inl (written stored h))
          | inr a ↦
              subst
                (λ b.
                  IsMergeOutcome (if b then first else if tries.second then second else neither))
                (sym a)
                (elim (Bool-cases tries.second) [
                  | inl c ↦
                      subst (λ b. IsMergeOutcome (if b then second else neither)) (sym c)
                        (inr (written (tries.between stored) h))
                  | inr c ↦ subst (λ b. IsMergeOutcome (if b then second else neither)) (sym c) refl
                ])
        ]
