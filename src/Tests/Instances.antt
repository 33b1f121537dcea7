-- ===== src/Tests/Instances.antt =====
-- Concrete instances of what the discovery of the program takes from other crates.
use ink_hole.Base.{
  nat_eq, if◌then◌else◌, nat_eq_instance, int_eq_instance, option_eq_instance, Text,
  text_eq_instance, ℕ, zero, suc, ◌+◌, ◌≤◌, ◌≡◌, refl, subst, Bool, true, false, Option, none, some,
  List, [], ◌∷◌, arith, lookup,
}
use ink_hole.Errors.{ok, ok-inj}
use ink_hole.Discovery.Addresses.{IpAddr, v4, v6, AddressTexts}
use ink_hole.Discovery.Announcements.{UdpAnnouncement, AnnouncementJson}
use ink_hole.Discovery.Tracker.{Probes, TaskIds}

abbrev pub times : ℕ → ℕ → Text
times zero c = []
times (suc n) c = c ∷ times n c

-- Addresses as two numbers.
abbrev pub address_text : IpAddr → Text
address_text (v4 bits) = 4 ∷ bits ∷ []
address_text (v6 bits) = 6 ∷ bits ∷ []

abbrev read_address : Text → Option IpAddr
read_address (kind ∷ bits ∷ []) =
    if nat_eq kind 4 then some (v4 bits) else if nat_eq kind 6 then some (v6 bits) else none
read_address _ = none

pub read_address-address_text : (ip : IpAddr) → read_address (address_text ip) ≡ some ip
read_address-address_text (v4 bits) = refl
read_address-address_text (v6 bits) = refl

abbrev pub texts : AddressTexts
texts = record {
  to_string = address_text;
  parse = read_address;
  parse-to_string = read_address-address_text;
}

-- Tasks numbered above all that run.
abbrev above : Probes → ℕ
above [] = 0
above (x ∷ probes) = suc (x.0 + above probes)

pub lookup-above : (probes : Probes) (n : ℕ) → above probes ≤ n → lookup probes n ≡ none
lookup-above [] n h = refl
lookup-above (x ∷ probes) n h = ground (arith, lookup-above probes n)

abbrev pub ids : TaskIds
ids = record {
  new_id = above;
  new_id-fresh = λ probes. lookup-above probes (above probes) (omega arith);
}

-- A code in place of JSON.
abbrev put_text : Text → List ℕ → List ℕ
put_text [] rest = 0 ∷ rest
put_text (c ∷ s) rest = 1 ∷ c ∷ put_text s rest

abbrev push_char : ℕ → Option (Text × List ℕ) → Option (Text × List ℕ)
push_char c none = none
push_char c (some (s, rest)) = some (c ∷ s, rest)

abbrev get_text : List ℕ → Option (Text × List ℕ)
get_text [] = none
get_text (zero ∷ rest) = some ([], rest)
get_text (suc n ∷ []) = none
get_text (suc n ∷ c ∷ rest) = push_char c (get_text rest)

get_text-put_text : (s : Text) (rest : List ℕ) → get_text (put_text s rest) ≡ some (s, rest)
get_text-put_text [] rest = refl
get_text-put_text (c ∷ s) rest = rw (get_text-put_text s rest) refl

abbrev bit : Bool → ℕ
bit true = 1
bit false = 0

abbrev pub put : UdpAnnouncement → List ℕ
put a =
    bit a.reply
    ∷ bit a.bye
    ∷ a.version
    ∷ a.port
    ∷ put_text a.magic (put_text a.instance_id (put_text a.fingerprint []))

abbrev built : ℕ → ℕ → ℕ → ℕ → Text → Text → Option (Text × List ℕ) → Option UdpAnnouncement
built reply bye version port magic id none = none
built reply bye version port magic id (some (fingerprint, rest)) = some (record {
  magic = magic;
  version = version;
  instance_id = id;
  port = port;
  fingerprint = fingerprint;
  reply = nat_eq reply 1;
  bye = nat_eq bye 1;
})

abbrev with_id : ℕ → ℕ → ℕ → ℕ → Text → Option (Text × List ℕ) → Option UdpAnnouncement
with_id reply bye version port magic none = none
with_id reply bye version port magic (some (id, rest)) =
    built reply bye version port magic id (get_text rest)

abbrev with_magic : ℕ → ℕ → ℕ → ℕ → Option (Text × List ℕ) → Option UdpAnnouncement
with_magic reply bye version port none = none
with_magic reply bye version port (some (magic, rest)) =
    with_id reply bye version port magic (get_text rest)

abbrev get : List ℕ → Option UdpAnnouncement
get (reply ∷ bye ∷ version ∷ port ∷ rest) = with_magic reply bye version port (get_text rest)
get _ = none

bit_back : (b : Bool) → nat_eq (bit b) 1 ≡ b
bit_back true = refl
bit_back false = refl

get-put : (a : UdpAnnouncement) → get (put a) ≡ some a
get-put a =
    rw
      (
        get_text-put_text a.magic (put_text a.instance_id (put_text a.fingerprint [])),
        get_text-put_text a.instance_id (put_text a.fingerprint []),
        get_text-put_text a.fingerprint [],
        bit_back a.reply,
        bit_back a.bye,
      )
      refl

pub get_made :
    (a : UdpAnnouncement) (payload : List ℕ) → ok (put a) ≡ ok payload → get payload ≡ some a
get_made a payload h = subst (λ p. get p ≡ some a) (ok-inj h) (get-put a)

abbrev pub json : AnnouncementJson
json = record {
  to_vec = λ a. ok (put a);
  from_slice = get;
  from_slice-to_vec = λ a payload _ _ h. get_made a payload h;
  from_slice-nil = refl;
}
