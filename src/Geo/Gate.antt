-- ===== src/Geo/Gate.antt =====
-- What the gate of tuntop/geo/geoip.py lets through: its bounds, its form, and its two copies.
use native.Mathlib.Nat.{mul-div_cancel, one-le-pow}
use mathlib.Core.Option
use tun_top.Prelude.{
  ◌≡◌, refl, sym, subst, ◌∙◌, ap, ℕ, suc, ◌-◌, ◌*◌, ◌/◌, ◌^◌, ◌≤◌, ◌↔◌, true, false, none, some,
  List, [], ◌∷◌, ltb, leb, ◌==◌, Bool-cases, inl, inr, ◌⊎◌, length, arith, Option-cases, ℕ_discrete,
}
use tun_top.Geo.Ranges.{
  Network, mask_bytes, max_prefixlen, min_prefixlen, ip_network, range_of, geoip_cidr_to_str,
  above_floor,
}

pub length-mask_bytes : (ip : List ℕ) (plen : ℕ) → length (mask_bytes ip plen) ≡ length ip
unfolding mask_bytes
length-mask_bytes [] plen = refl
length-mask_bytes (b ∷ bs) plen = elim (Bool-cases (leb 8 plen)) [
  | inl t ↦ rw (t, length-mask_bytes bs (plen - 8))
  | inr t ↦ rw (t, length-mask_bytes bs (plen - 8))
]

-- The prefix lengths that the gate takes, by the version of the address.
abbrev pub IsRange : List ℕ → ℕ → Type 0
IsRange ip plen =
    ((length ip ≡ 4) × (8 ≤ plen) × (suc plen ≤ 32))
    ⊎ ((length ip ≡ 16) × (16 ≤ plen) × (suc plen ≤ 128))

-- Every length is that of an IPv4 address, of an IPv6 address, or of none.
abbrev Version : List ℕ → Type 0
Version ip =
    (length ip ≡ 4)
    ⊎ ((length ip ≡ 16) ⊎ (((length ip == 4) ≡ false) × ((length ip == 16) ≡ false)))

version : (ip : List ℕ) → Version ip
version ip = elim (Bool-cases (length ip == 4)) [
  | inl t ↦ inl (ground arith)
  | inr t ↦ elim (Bool-cases (length ip == 16)) [
    | inl u ↦ inr (inl (ground arith))
    | inr u ↦ inr (inr (t, u))
  ]
]

module _ (ip : List ℕ) where
  v4_max : length ip ≡ 4 → max_prefixlen ip ≡ some 32
  unfolding max_prefixlen
  v4_max e = rw e

  v4_min : length ip ≡ 4 → min_prefixlen ip ≡ 8
  unfolding min_prefixlen
  v4_min e = rw e

  v6_max : length ip ≡ 16 → max_prefixlen ip ≡ some 128
  unfolding max_prefixlen
  v6_max e = rw e

  v6_min : length ip ≡ 16 → min_prefixlen ip ≡ 16
  unfolding min_prefixlen
  v6_min e = rw e

  unversioned : ((length ip == 4) ≡ false) × ((length ip == 16) ≡ false) → max_prefixlen ip ≡ none
  unfolding max_prefixlen
  unversioned n = rw (n.0, n.1)

  module _ (plen : ℕ) where
    -- The network with the given address and prefix length, host bits cleared.
    abbrev pub masked : Network
    masked = record { address = mask_bytes ip plen; prefixlen = plen }

    pub built : (m : ℕ) → max_prefixlen ip ≡ some m → plen ≤ m → ip_network ip plen ≡ some masked
    unfolding ip_network
    built m e h = let c : leb plen m ≡ true = ground (arith, h) in rw (e, c)

    taken :
        (m : ℕ)
        → max_prefixlen ip ≡ some m
        → min_prefixlen ip ≤ plen
        → suc plen ≤ m
        → range_of ip plen ≡ some masked
    unfolding range_of
    taken m e low high =
        let a : ltb plen m ≡ true = ground arith in
        let b : ltb plen (min_prefixlen ip) ≡ false = ground (arith, low) in
        rw (e, a, b) (built m e (omega (arith, high)))

    too_long : (m : ℕ) → max_prefixlen ip ≡ some m → ltb plen m ≡ false → range_of ip plen ≡ none
    unfolding range_of
    too_long m e a = rw (e, a)

    too_short :
        (m : ℕ)
        → max_prefixlen ip ≡ some m
        → ltb plen m ≡ true
        → ltb plen (min_prefixlen ip) ≡ true
        → range_of ip plen ≡ none
    unfolding range_of
    too_short m e a b = rw (e, a, b)

    no_version : max_prefixlen ip ≡ none → range_of ip plen ≡ none
    unfolding range_of
    no_version e = rw e

    -- A range that is kept lies between the bounds, and is the one that the bytes say.
    bounded :
        (m : ℕ) (net : Network)
        → max_prefixlen ip ≡ some m
        → range_of ip plen ≡ some net
        → (min_prefixlen ip ≤ plen) × (suc plen ≤ m) × (net ≡ masked)
    bounded m net e r = elim (Bool-cases (ltb plen m)) [
      | inl a ↦ elim (Bool-cases (ltb plen (min_prefixlen ip))) [
        | inl b ↦ absurd (Option.none-ne-some net (sym (too_short m e a b) ∙ r))
        | inr b ↦
            let low : min_prefixlen ip ≤ plen = ground (arith, b) in
            let high : suc plen ≤ m = ground (arith, a) in
            (low, high, Option.some-injective net masked (sym r ∙ taken m e low high))
      ]
      | inr a ↦ absurd (Option.none-ne-some net (sym (too_long m e a) ∙ r))
    ]

    -- A range of the wire becomes a route exactly when it is an IPv4 range of 8 to 31 bits or an
    -- IPv6 range of 16 to 127 bits, and then as the network of its bytes with the host bits
    -- cleared.
    pub geoip_cidr_to_str_iff :
        (net : Network)
        → (geoip_cidr_to_str (some ip) (some plen) ≡ some net) ↔ (IsRange ip plen × (net ≡ masked))
    unfolding geoip_cidr_to_str
    geoip_cidr_to_str_iff net = (
      (λ r. elim (version ip) [
        | inl v4 ↦
            let (low, high, e) = bounded 32 net (v4_max v4) r in
            (inl (v4, omega (arith, low, v4_min v4), high), e)
        | inr w ↦ elim w [
          | inl v6 ↦
              let (low, high, e) = bounded 128 net (v6_max v6) r in
              (inr (v6, omega (arith, low, v6_min v6), high), e)
          | inr n ↦ absurd (Option.none-ne-some net (sym (no_version (unversioned n)) ∙ r))
        ]
      ]),
      (λ h. elim h.0 [
        | inl v4 ↦ taken 32 (v4_max v4.0) (omega (arith, v4, v4_min v4.0)) v4.2 ∙ ap some (sym h.1)
        | inr v6 ↦ taken 128 (v6_max v6.0) (omega (arith, v6, v6_min v6.0)) v6.2 ∙ ap some (sym h.1)
      ]),
    )

min-mask_bytes : (ip : List ℕ) (plen : ℕ) → min_prefixlen (mask_bytes ip plen) ≡ min_prefixlen ip
unfolding min_prefixlen
min-mask_bytes ip plen = rw (length-mask_bytes ip plen)

max-mask_bytes : (ip : List ℕ) (plen : ℕ) → max_prefixlen (mask_bytes ip plen) ≡ max_prefixlen ip
unfolding max_prefixlen
max-mask_bytes ip plen = rw (length-mask_bytes ip plen)

module _ (ip : List ℕ) (plen : ℕ) where
  no_network : max_prefixlen ip ≡ none → ip_network ip plen ≡ none
  unfolding ip_network
  no_network e = rw e

  beyond : (m : ℕ) → max_prefixlen ip ≡ some m → suc m ≤ plen → ip_network ip plen ≡ none
  unfolding ip_network
  beyond m e h = let c : leb plen m ≡ false = ground (arith, h) in rw (e, c)

  kept :
      (m : ℕ)
      → max_prefixlen ip ≡ some m
      → plen ≤ m
      → min_prefixlen ip ≤ plen
      → above_floor (ip_network ip plen) ≡ some (masked ip plen)
  unfolding above_floor
  kept m e h low =
      let floor : ltb plen (min_prefixlen ip) ≡ false = ground (arith, low) in
      rw (built ip plen m e h, min-mask_bytes ip plen, floor)

  dropped :
      (m : ℕ)
      → max_prefixlen ip ≡ some m
      → plen ≤ m
      → ltb plen (min_prefixlen ip) ≡ true
      → above_floor (ip_network ip plen) ≡ none
  unfolding above_floor
  dropped m e h b = rw (built ip plen m e h, min-mask_bytes ip plen, b)

  not_built :
      (m : ℕ) → max_prefixlen ip ≡ some m → suc m ≤ plen → above_floor (ip_network ip plen) ≡ none
  unfolding above_floor
  not_built m e h = rw (beyond m e h)

  unbuilt : max_prefixlen ip ≡ none → above_floor (ip_network ip plen) ≡ none
  unfolding above_floor
  unbuilt e = rw (no_network e)

  above_min : (m : ℕ) → max_prefixlen ip ≡ some m → min_prefixlen ip ≤ m
  above_min m e = elim (version ip) [
    | inl v4 ↦
        let same = Option.some-injective m 32 (sym e ∙ v4_max ip v4) in
        omega (arith, same, v4_min ip v4)
    | inr w ↦ elim w [
      | inl v6 ↦
          let same = Option.some-injective m 128 (sym e ∙ v6_max ip v6) in
          omega (arith, same, v6_min ip v6)
      | inr n ↦ absurd (Option.none-ne-some m (sym (unversioned ip n) ∙ e))
    ]
  ]

  -- The pure reader's gate and the other readers' gate give the same answer for every range but
  -- one to a single host: that range the pure reader drops and the others keep.
  pub range_of-above_floor :
      (range_of ip plen ≡ above_floor (ip_network ip plen))
      ⊎ ((max_prefixlen ip ≡ some plen)
          × (range_of ip plen ≡ none)
          × (above_floor (ip_network ip plen) ≡ some (masked ip plen)))
  range_of-above_floor = elim (Option-cases (max_prefixlen ip)) [
    | inl e ↦ inl (no_version ip plen e ∙ sym (unbuilt e))
    | inr s ↦
        let (m, e) = s in
        elim (ℕ_discrete plen m) [
          | yes same ↦
              let at : max_prefixlen ip ≡ some plen = e ∙ ap some (sym same) in
              let high : ltb plen plen ≡ false = ground arith in
              inr
                (at, too_long ip plen plen at high, kept plen at (omega arith) (above_min plen at))
          | no other ↦ elim (Bool-cases (ltb plen m)) [
            | inl a ↦ elim (Bool-cases (ltb plen (min_prefixlen ip))) [
              | inl b ↦ inl (too_short ip plen m e a b ∙ sym (dropped m e (ground (arith, a)) b))
              | inr b ↦ inl (
                  taken ip plen m e (ground (arith, b)) (ground (arith, a))
                  ∙ sym (kept m e (ground (arith, a)) (ground (arith, b))))
            ]
            | inr a ↦ inl (too_long ip plen m e a ∙ sym (not_built m e (ground (arith, a, other))))
          ]
        ]
  ]

mask_bytes-idempotent :
    (ip : List ℕ) (plen : ℕ) → mask_bytes (mask_bytes ip plen) plen ≡ mask_bytes ip plen
unfolding mask_bytes
mask_bytes-idempotent [] plen = refl
mask_bytes-idempotent (b ∷ bs) plen = elim (Bool-cases (leb 8 plen)) [
  | inl t ↦ rw (t, t, mask_bytes-idempotent bs (plen - 8))
  | inr t ↦
      let weight = 2 ^ (8 - plen) in
      let whole : b / weight * weight / weight ≡ b / weight =
        mul-div_cancel (b / weight) (one-le-pow (8 - plen) 2 (omega arith)) in
      rw (t, t, whole, mask_bytes-idempotent bs (plen - 8))
]

again :
    (ip : List ℕ) (plen m : ℕ)
    → max_prefixlen ip ≡ some m
    → plen ≤ m
    → ip_network (mask_bytes ip plen) plen ≡ some (masked ip plen)
again ip plen m e h =
    built (mask_bytes ip plen) plen m (max-mask_bytes ip plen ∙ e) h
    ∙ ap (λ a. some (record { address = a; prefixlen = plen })) (mask_bytes-idempotent ip plen)

-- A network that is built has no host bits: built again from its own address it is itself, so
-- that its text is the one form of the range.
pub ip_network-ip_network :
    (ip : List ℕ) (plen : ℕ) (net : Network)
    → ip_network ip plen ≡ some net
    → ip_network net.address net.prefixlen ≡ some net
ip_network-ip_network ip plen net e = elim (Option-cases (max_prefixlen ip)) [
  | inl n ↦ absurd (Option.none-ne-some net (sym (no_network ip plen n) ∙ e))
  | inr s ↦
      let (m, at) = s in
      elim (Bool-cases (leb plen m)) [
        | inl t ↦
            let h : plen ≤ m = ground (arith, t) in
            let same =
              Option.some-injective (masked ip plen) net (sym (built ip plen m at h) ∙ e) in
            subst (λ x. ip_network x.address x.prefixlen ≡ some x) same (again ip plen m at h)
        | inr t ↦
            absurd (Option.none-ne-some net (sym (beyond ip plen m at (ground (arith, t))) ∙ e))
      ]
]
