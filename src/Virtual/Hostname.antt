-- ===== src/Virtual/Hostname.antt =====
-- The host name that a service identifier is given.
use scweb_vpn.Common.{
  ◌∙◌, ℕ, ◌*◌, ◌≡◌, ◌↔◌, ◌++◌, refl, sym, ap, Option, none, some, List, [], ◌∷◌, map, arith, All,
  length, ok, Bool-cases, inl, inr, ◌==◌, ==_iff,
}
use scweb_vpn.Common.Texts.{Text, lit, to_lower}
use scweb_vpn.Platform.Base64.Laws.{atob-All}
use scweb_vpn.Virtual.{id_bytes, base32_label, hostname_of, virtual_hostname}
use scweb_vpn.Virtual.Digits.{
  IsByte, IsDigit, number, number_injective, letter, to_lower-spell, map-letter_injective,
  length-map-letter,
}
use scweb_vpn.Virtual.Label.{IsLabel, base32_label-IsLabel}

-- A name that was given out is the name of 16 bytes.
pub record Named (id h : Text) : Type 0 where
  pub bytes : List ℕ
  pub decoded : id_bytes id ≡ some bytes
  pub sixteen : length bytes ≡ 16
  pub are_bytes : All IsByte bytes
  pub digits : List ℕ
  pub are_digits : All IsDigit digits
  pub count : length digits ≡ 26
  pub amount : number 32 digits 0 ≡ number 256 bytes 0 * 4
  pub name : h ≡ lit "s-" ++ map letter digits ++ lit ".webvpn.invalid"

Named-of_label :
    (id h : Text) (bytes : List ℕ)
    → id_bytes id ≡ some bytes
    → length bytes ≡ 16
    → All IsByte bytes
    → IsLabel bytes (base32_label bytes)
    → lit "s-" ++ to_lower (base32_label bytes) ++ lit ".webvpn.invalid" ≡ h
    → Named id h
Named-of_label id h bytes e sixteen are_bytes l r =
    let p : l.pad ≡ 2 = omega (arith, l.total, l.pad_small, sixteen) in
    record {
      bytes = bytes;
      decoded = e;
      sixteen = sixteen;
      are_bytes = are_bytes;
      digits = l.digits;
      are_digits = l.below;
      count = omega (arith, l.total);
      amount = rw p at l.amount;
      name = rw (← to_lower-spell l.digits l.below, ← l.spelled) (sym r);
    }

Named-of_bytes :
    (id h : Text) (bytes : List ℕ)
    → id_bytes id ≡ some bytes
    → hostname_of (some bytes) ≡ ok h
    → Named id h
unfolding hostname_of
Named-of_bytes id h bytes e r = elim (Bool-cases (length bytes == 16)) [
  | inl same ↦
      let are_bytes : All IsByte bytes = unfold id_bytes in atob-All _ bytes e in
      Named-of_label id h bytes e ((==_iff _ _).0 same) are_bytes
        (base32_label-IsLabel bytes are_bytes) (let given : _ ≡ _ = rw same at r in cc)
  | inr other ↦ absurd (cc (rw other at r))
]

Named-of_decoded :
    (id h : Text) (decoded : Option (List ℕ))
    → id_bytes id ≡ decoded
    → hostname_of decoded ≡ ok h
    → Named id h
Named-of_decoded id h none e r = absurd (unfold hostname_of in cc)
Named-of_decoded id h (some bytes) e r = Named-of_bytes id h bytes e r

-- A host name that is returned is `s-`, 26 lower-case letters or figures 2 to 7, and
-- `.webvpn.invalid`; the 26 are the base 32 digits of the identifier's 128-bit number times four.
pub virtual_hostname-Named : (id h : Text) → virtual_hostname id ≡ ok h → Named id h
unfolding virtual_hostname
virtual_hostname-Named id h r = Named-of_decoded id h (id_bytes id) refl r

append-left_cancel : (p s t : Text) → p ++ s ≡ p ++ t → s ≡ t
append-left_cancel [] s t e = e
append-left_cancel (c ∷ p) s t e = append-left_cancel p s t (cc)

append-right_cancel : (s t r : Text) → length s ≡ length t → s ++ r ≡ t ++ r → s ≡ t
append-right_cancel [] [] r l e = refl
append-right_cancel [] (d ∷ t) r l e = absurd (omega arith)
append-right_cancel (c ∷ s) [] r l e = absurd (omega arith)
append-right_cancel (c ∷ s) (d ∷ t) r l e =
    let tails : s ≡ t = append-right_cancel s t r (omega arith) (cc) in cc

Named-bytes_eq : (id id' h : Text) (n : Named id h) (m : Named id' h) → n.bytes ≡ m.bytes
Named-bytes_eq id id' h n m =
    let same_name = sym n.name ∙ m.name in
    let same_letters =
      append-right_cancel (map letter n.digits) (map letter m.digits) (lit ".webvpn.invalid")
        (omega (arith, length-map-letter n.digits, length-map-letter m.digits, n.count, m.count))
        (append-left_cancel (lit "s-") _ _ same_name) in
    let same_digits =
      map-letter_injective n.digits m.digits n.are_digits m.are_digits same_letters in
    let same_number : number 32 n.digits 0 ≡ number 32 m.digits 0 =
      ap (λ ds. number 32 ds 0) same_digits in
    (number_injective n.bytes m.bytes 0 0 (n.sixteen ∙ sym m.sixteen) n.are_bytes m.are_bytes
      (omega (arith, n.amount, m.amount))).1

-- Two identifiers are given the same host name only if they decode to the same 16 bytes: distinct
-- services never share an origin.
pub virtual_hostname_injective :
    (id id' h : Text)
    → virtual_hostname id ≡ ok h
    → virtual_hostname id' ≡ ok h
    → id_bytes id ≡ id_bytes id'
virtual_hostname_injective id id' h r r' =
    let n = virtual_hostname-Named id h r in
    let m = virtual_hostname-Named id' h r' in
    n.decoded ∙ ap some (Named-bytes_eq id id' h n m) ∙ sym m.decoded

-- A host name is returned exactly for an identifier that decodes to 16 bytes.
pub virtual_hostname-ok_iff :
    (id : Text)
    → ((h : Text) × (virtual_hostname id ≡ ok h))
      ↔ ((bytes : List ℕ) × (id_bytes id ≡ some bytes) × (length bytes ≡ 16))
virtual_hostname-ok_iff id = (there, back)
  where
    there :
        ((h : Text) × (virtual_hostname id ≡ ok h))
        → ((bytes : List ℕ) × (id_bytes id ≡ some bytes) × (length bytes ≡ 16))
    there (h, r) = let n = virtual_hostname-Named id h r in (n.bytes, n.decoded, n.sixteen)

    back :
        ((bytes : List ℕ) × (id_bytes id ≡ some bytes) × (length bytes ≡ 16))
        → ((h : Text) × (virtual_hostname id ≡ ok h))
    back (bytes, e, l) = (
      lit "s-" ++ to_lower (base32_label bytes) ++ lit ".webvpn.invalid",
      unfold virtual_hostname hostname_of in rw (e, l),
    )
