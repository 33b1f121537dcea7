-- ===== src/Protocol/Probes/Separation.antt =====
-- What is signed for offers and for responses to probes, in protocol.rs.
use ink_hole.Base.{
  nat_eq_instance, int_eq_instance, option_eq_instance, Text, text_eq_instance, ℕ, zero, suc, ◌≡◌,
  sym, ap, ◌∙◌, ◌≢◌, Bool, List, [], ◌∷◌, ◌++◌, arith,
}
use ink_hole.Errors.{Result, ok, >>=-eq-ok, ok-inj}
use ink_hole.Protocol.Signatures.{Signatures}
use ink_hole.Protocol.Probes.{
  PeerProbeResponse, SignableProbe, probe_signing_bytes, probe_signature_domain,
}
use ink_hole.Protocol.Offers.{
  offer_signature_domain, TransferOffer, SignableOffer, offer_signing_bytes,
}

abbrev byte_at : ℕ → List ℕ → ℕ
byte_at n [] = 0
byte_at zero (b ∷ bs) = b
byte_at (suc n) (b ∷ bs) = byte_at n bs

domains_apart : (x y : List ℕ) → (offer_signature_domain ++ x) ≢ (probe_signature_domain ++ y)
domains_apart x y e = let differ : ◌≡◌ {A = ℕ} b'o' b'p' = ap (byte_at 13) e in omega arith

-- No bytes are signed both for an offer and for a response to a probe, so that a signature of the one
-- never passes for a signature of the other.
pub offer_signing_bytes-ne :
    (parse_str : Text → Bool) (offer_json : SignableOffer → Result (List ℕ))
    (probe_json : SignableProbe → Result (List ℕ)) (signatures : Signatures) (offer : TransferOffer)
    (response : PeerProbeResponse) (message : List ℕ)
    → offer_signing_bytes parse_str offer_json signatures offer ≡ ok message
    → probe_signing_bytes probe_json signatures response ≢ ok message
unfolding offer_signing_bytes probe_signing_bytes
offer_signing_bytes-ne parse_str offer_json probe_json signatures offer response message h k =
    let (x, _, e) = >>=-eq-ok (offer_json _) _ h in
    let (y, _, f) = >>=-eq-ok (probe_json _) _ k in domains_apart x y (ok-inj e ∙ sym (ok-inj f))
