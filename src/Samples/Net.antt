-- ===== src/Samples/Net.antt =====
-- A network at which the checks of an SSH installation are run.
use ulcer.Prelude.{
  ℕ, ◌+◌, ◌*◌, ◌-◌, ◌≡◌, refl, ◌⊎◌, inl, true, false, ◌||◌, Text, Option, none, some, [], ◌∷◌, ◌++◌,
  ◌==◌, arith, leb, all, if◌then◌else◌,
}
use mathlib.Core.List.{append_assoc}
use ulcer.SshInstall.Checks.{Net, is_digit}

abbrev at_colon : Text → Text → Option (Text × Text)
at_colon host [] = none
at_colon host (c ∷ s) = if c == b':' then some (host, s) else at_colon (host ++ c ∷ []) s

at_colon-eq-some :
    (read s host port : Text)
    → at_colon read s ≡ some (host, port)
    → read ++ s ≡ host ++ b':' ∷ port
at_colon-eq-some read [] host port h = ground arith
at_colon-eq-some read (c ∷ s) host port h =
    ground (arith, at_colon-eq-some (read ++ c ∷ []) s host port, append_assoc read (c ∷ []) s)

pub split_host_port-eq-some :
    (endpoint host port : Text)
    → at_colon [] endpoint ≡ some (host, port)
    → (endpoint ≡ host ++ b':' ∷ port) ⊎ (endpoint ≡ b'[' ∷ host ++ b']' ∷ b':' ∷ port)
split_host_port-eq-some endpoint host port h = inl (at_colon-eq-some [] endpoint host port h)

abbrev value_from : ℕ → Text → ℕ
value_from n [] = n
value_from n (c ∷ s) = value_from (n * 10 + (c - b'0')) s

abbrev digits : Text → Option ℕ
digits s = if all (λ c. is_digit c) s then some (value_from 0 s) else none

all-is_digit :
    (s : Text)
    → all (λ c. is_digit c) s ≡ true
    → all (λ c. is_digit c || c == b'+' || c == b'-') s ≡ true
all-is_digit [] h = refl
all-is_digit (c ∷ s) h = ground (arith, all-is_digit s)

pub digits-eq-some :
    (s : Text) (n : ℕ)
    → digits s ≡ some n
    → all (λ c. is_digit c || c == b'+' || c == b'-') s ≡ true
digits-eq-some s n h = ground (arith, all-is_digit s)

-- An address is the first byte of one of four bytes, the others being 1.
instance abbrev pub sample_net : Net
sample_net = record {
  Addr = ℕ;
  parse_addr = λ s. none;
  addr_text = λ a. a ∷ [];
  unmap = λ a. a;
  is_valid = λ a. true;
  is_unspecified = λ a. a == 0;
  is_loopback = λ a. a == 127;
  is_link_local_unicast = λ a. a == 169;
  is_link_local_multicast = λ a. false;
  is_multicast = λ a. leb 224 a;
  is6 = λ a. false;
  is4_in6 = λ a. false;
  is4 = λ a. true;
  as4 = λ a. a ∷ 1 ∷ 1 ∷ 1 ∷ [];
  split_host_port = at_colon [];
  split_host_port-eq-some = split_host_port-eq-some;
  atoi = digits;
  atoi-eq-some = digits-eq-some;
  to_lower = λ s. s;
}
