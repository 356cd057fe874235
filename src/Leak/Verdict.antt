-- ===== src/Leak/Verdict.antt =====
-- When the check of tuntop/monitor/leak.py fails.
use tun_top.Prelude.{
  ◌≡◌, refl, sym, ◌∙◌, ap, subst, inl, inr, Bool, true, false, not, ◌&&◌, ◌||◌, Option, none, some,
  List, [], ◌∷◌, if◌then◌else◌, Bool-cases, String, is_empty, str_eq, eq_iff,
}
use tun_top.Leak.{
  Status, passed, leak, same_exit, Addresses, as_check_result, other_answers, is_some_list,
  other_version, same_network, rides, any_rides, reprobed, verdict,
}

module _ (lib : Addresses) where
  -- One of the answers, of those that are no empty text, rode the tunnel.
  unfoldable pub one_rides : String → List String → Bool
  one_rides tip [] = false
  one_rides tip (i ∷ is) = (not (is_empty i) && rides lib tip i) || one_rides tip is

  -- The forced probe shows an IPv4 address that did not ride the tunnel.
  abbrev pub escapes : String → Option String → Bool
  escapes tip none = false
  escapes tip (some v4) = not (is_empty v4) && not (rides lib tip v4)

  any_rides-other_answers :
      (dip tip : String)
      → rides lib tip dip ≡ false
      → (ips : List String) → any_rides lib tip (other_answers dip ips) ≡ one_rides tip ips
  unfolding any_rides other_answers one_rides
  any_rides-other_answers dip tip h [] = refl
  any_rides-other_answers dip tip h (i ∷ is) =
      let later = any_rides-other_answers dip tip h is in
      elim (Bool-cases (is_empty i)) [
        | inl a ↦ rw a later
        | inr a ↦ elim (Bool-cases (str_eq i dip)) [
          | inl b ↦
              let no_ride : rides lib tip i ≡ false =
                subst (λ j. rides lib tip j ≡ false) (sym ((eq_iff i dip).0 b)) h in
              rw (a, b, no_ride) later
          | inr b ↦ rw (a, b, later)
        ]
      ]

  some_answer :
      (dip tip : String)
      → rides lib tip dip ≡ false
      → (is : List String) → is_some_list is && any_rides lib tip (dip ∷ is) ≡ any_rides lib tip is
  unfolding any_rides
  some_answer dip tip h [] = refl
  some_answer dip tip h (i ∷ is) = rw h

  reprobed-escapes :
      (tip : String) (v4 : Option String)
      → as_check_result (reprobed lib tip v4) ≡ not (escapes tip v4)
  unfolding as_check_result
  reprobed-escapes tip none = refl
  reprobed-escapes tip (some v4) = elim (Bool-cases (is_empty v4)) [
    | inl a ↦ rw a
    | inr a ↦ elim (Bool-cases (rides lib tip v4)) [ inl b ↦ rw (a, b) | inr b ↦ rw (a, b) ]
  ]

  last_tests :
      (one other : Bool) (x : Status)
      → as_check_result (if one then same_exit else if other then x else leak)
        ≡ (one || (other && as_check_result x))
  unfolding as_check_result
  last_tests true other x = refl
  last_tests false true x = refl
  last_tests false false x = refl

  first_tests :
      (a b : Bool) (x : Status) (one y : Bool)
      → (a || b ≡ false → as_check_result x ≡ (one || y))
      → as_check_result (if a then passed else if b then same_exit else x)
        ≡ ((a || b) || (one || y))
  unfolding as_check_result
  first_tests true b x one y h = refl
  first_tests false true x one y h = refl
  first_tests false false x one y h = h refl

  -- Of two legs that both have an address, the check passes exactly if some answer of the direct
  -- leg is the tunnel's exit or of its network, or if the first answer is of the other family and
  -- the probe that is forced to IPv4 shows no address that escapes.
  pub as_check_result-verdict :
      (dip tip : String) (ips seen : List String) (v4 : Option String)
      → as_check_result (
          verdict lib
            (record { ip = some dip; ips = ips })
            (record { ip = some tip; ips = seen })
            v4)
        ≡ (rides lib tip dip
            || (one_rides tip ips
                || (other_version (lib.version dip) (lib.version tip) && not (escapes tip v4))))
  unfolding verdict
  as_check_result-verdict dip tip ips seen v4 =
      let others = other_answers dip ips in
      let one = is_some_list others && any_rides lib tip (dip ∷ others) in
      let differs = other_version (lib.version dip) (lib.version tip) in
      first_tests (str_eq dip tip) (same_network lib dip tip)
        (if one then same_exit else if differs then reprobed lib tip v4 else leak)
        (one_rides tip ips) (differs && not (escapes tip v4))
        (λ h.
          last_tests one differs (reprobed lib tip v4)
          ∙ (ap (λ b. b || (differs && as_check_result (reprobed lib tip v4)))
                (some_answer dip tip h others ∙ any_rides-other_answers dip tip h ips)
              ∙ ap (λ b. one_rides tip ips || (differs && b)) (reprobed-escapes tip v4)))
