-- ===== src/Denylist/Dnslink.antt =====
-- `toDNSLinkFQDN`: the domain name of an inlined DNSLink label.
use nopfs.Prelude.{
  ℕ, ◌+◌, ◌/◌, ◌%◌, ◌<◌, ◌≤◌, ◌≡◌, ◌≢◌, refl, suc, sym, ap, ◌∙◌, [], ◌∷◌, ◌++◌, true, false, ◌&&◌,
  Bytes, nat_eqb, ltb, length, if◌then◌else◌, arith,
}
use native.Mathlib.Decide.{ℕ_discrete}
use nopfs.Text.{contains_byte}

-- `WriteRune(rune(label[i]))`: a byte is taken for a rune, so one above 127 becomes two bytes.
unfoldable pub write_rune : ℕ → Bytes
write_rune c = if ltb c 128 then c ∷ [] else (0xC0 + c / 64) ∷ (0x80 + c % 64) ∷ []

-- The loop, where the flag says that a dash was met and nothing is written for it yet.
unfoldable pub to_dnslink_fqdn : Bytes → Bytes
to_dnslink_fqdn [] = []
to_dnslink_fqdn (c ∷ []) = if nat_eqb c b'-' then b'.' ∷ [] else write_rune c
to_dnslink_fqdn (c ∷ d ∷ label) =
    let skip = b'-' ∷ to_dnslink_fqdn label in
    let step =
      (if nat_eqb c b'-' then b'.' ∷ [] else write_rune c) ++ to_dnslink_fqdn (d ∷ label) in
    if nat_eqb c b'-' && nat_eqb d b'-' then skip else step

-- The inlining that gateways do: a dash is doubled, and a dot becomes a dash.
inline_byte : ℕ → Bytes
inline_byte c =
    if nat_eqb c b'-' then b'-' ∷ b'-' ∷ [] else if nat_eqb c b'.' then b'-' ∷ [] else c ∷ []

unfoldable pub inline : Bytes → Bytes
unfolding inline_byte
inline [] = []
inline (c ∷ name) = inline_byte c ++ inline name

-- The first byte is neither a dash nor a dot.
abbrev pub StartsLabel : Bytes → Type 0
StartsLabel [] = Unit {0}
StartsLabel (c ∷ name) = (c ≢ b'-') × (c ≢ b'.')

-- ASCII, with no label that is empty or begins with a dash after a dot.
abbrev pub IsHostName : Bytes → Type 0
IsHostName [] = Unit {0}
IsHostName (c ∷ name) = (c < 128) × (c ≡ b'.' → StartsLabel name) × IsHostName name

to_dnslink_fqdn-other :
    (c : ℕ) (s : Bytes) → c < 128 → c ≢ b'-' → to_dnslink_fqdn (c ∷ s) ≡ c ∷ to_dnslink_fqdn s
unfolding to_dnslink_fqdn write_rune
to_dnslink_fqdn-other c [] h n = ground arith
to_dnslink_fqdn-other c (d ∷ s) h n = ground arith

to_dnslink_fqdn-dash_dash :
    (s : Bytes) → to_dnslink_fqdn (b'-' ∷ b'-' ∷ s) ≡ b'-' ∷ to_dnslink_fqdn s
unfolding to_dnslink_fqdn
to_dnslink_fqdn-dash_dash s = refl

-- What follows a dash that stands for a dot.
abbrev NoDashHead : Bytes → Type 0
NoDashHead [] = Unit {0}
NoDashHead (d ∷ s) = d ≢ b'-'

to_dnslink_fqdn-dash :
    (s : Bytes) → NoDashHead s → to_dnslink_fqdn (b'-' ∷ s) ≡ b'.' ∷ to_dnslink_fqdn s
unfolding to_dnslink_fqdn
to_dnslink_fqdn-dash [] n = refl
to_dnslink_fqdn-dash (d ∷ s) n = ground arith

NoDashHead-inline : (name : Bytes) → StartsLabel name → NoDashHead (inline name)
unfolding inline
NoDashHead-inline [] h = tt
NoDashHead-inline (c ∷ name) h = ground arith

dot-inline :
    (c : ℕ) (name : Bytes)
    → c ≡ b'.'
    → StartsLabel name
    → to_dnslink_fqdn (inline (c ∷ name)) ≡ c ∷ to_dnslink_fqdn (inline name)
unfolding inline
dot-inline c name e h = rw e (to_dnslink_fqdn-dash (inline name) (NoDashHead-inline name h))

other-inline :
    (c : ℕ) (name : Bytes)
    → c < 128
    → c ≢ b'.'
    → to_dnslink_fqdn (inline (c ∷ name)) ≡ c ∷ to_dnslink_fqdn (inline name)
unfolding inline
other-inline c name lt n =
    ground
      (arith, to_dnslink_fqdn-dash_dash (inline name), to_dnslink_fqdn-other c (inline name) lt)

-- The inlining that gateways make of a host name, a doubled dash for a dash and a dash for a dot,
-- is undone, if the name is ASCII and no label after a dot is empty or begins with a dash.
pub to_dnslink_fqdn-inline : (name : Bytes) → IsHostName name → to_dnslink_fqdn (inline name) ≡ name
to_dnslink_fqdn-inline [] h = unfold inline to_dnslink_fqdn in refl
to_dnslink_fqdn-inline (c ∷ name) (lt, label, rest) = elim (ℕ_discrete c b'.') [
  | yes e ↦ dot-inline c name e (label e) ∙ ap (◌∷◌ c) (to_dnslink_fqdn-inline name rest)
  | no n ↦ other-inline c name lt n ∙ ap (◌∷◌ c) (to_dnslink_fqdn-inline name rest)
]

abbrev pub IsAscii : Bytes → Type 0
IsAscii [] = Unit {0}
IsAscii (c ∷ name) = (c < 128) × IsAscii name

length-dash :
    (d : ℕ) (s : Bytes)
    → length (to_dnslink_fqdn s) ≤ length s
    → length (to_dnslink_fqdn (d ∷ s)) ≤ suc (length s)
    → length (to_dnslink_fqdn (b'-' ∷ d ∷ s)) ≤ suc (suc (length s))
length-dash d s h k = elim (ℕ_discrete d b'-') [
  | yes dash ↦ rw (dash, to_dnslink_fqdn-dash_dash s) (omega arith)
  | no n ↦ rw (to_dnslink_fqdn-dash (d ∷ s) n) (omega arith)
]

length-to_dnslink_fqdn : (name : Bytes) → IsAscii name → length (to_dnslink_fqdn name) ≤ length name
length-to_dnslink_fqdn [] h = unfold to_dnslink_fqdn in omega arith
length-to_dnslink_fqdn (c ∷ []) h = unfold to_dnslink_fqdn write_rune in ground arith
length-to_dnslink_fqdn (c ∷ d ∷ name) (lt, (lt', a)) = elim (ℕ_discrete c b'-') [
  | yes dash ↦ rw dash (
      length-dash d name (length-to_dnslink_fqdn name a)
        (length-to_dnslink_fqdn (d ∷ name) (lt', a)))
  | no n ↦
      rw (to_dnslink_fqdn-other c (d ∷ name) lt n)
        (omega (arith, length-to_dnslink_fqdn (d ∷ name) (lt', a)))
]

dash_ne : (s : Bytes) → IsAscii s → to_dnslink_fqdn (b'-' ∷ s) ≢ b'-' ∷ s
dash_ne [] h e = unfold to_dnslink_fqdn in ground arith
dash_ne (d ∷ s) h e = elim (ℕ_discrete d b'-') [
  | yes dash ↦
      let e' : b'-' ∷ to_dnslink_fqdn s ≡ b'-' ∷ b'-' ∷ s =
        sym (to_dnslink_fqdn-dash_dash s) ∙ rw dash at e in
      omega (arith, ap (λ (l : Bytes). length l) e', length-to_dnslink_fqdn s h.1)
  | no n ↦ ground (arith, to_dnslink_fqdn-dash (d ∷ s) n)
]

-- An ASCII name with a dash is never mapped to itself.
pub to_dnslink_fqdn-ne :
    (name : Bytes) → IsAscii name → contains_byte name b'-' ≡ true → to_dnslink_fqdn name ≢ name
to_dnslink_fqdn-ne [] a h e = unfold contains_byte in ground arith
to_dnslink_fqdn-ne (c ∷ name) (lt, a) h e = elim (ℕ_discrete c b'-') [
  | yes dash ↦ dash_ne name a (rw dash at e)
  | no n ↦
      to_dnslink_fqdn-ne name a (unfold contains_byte in ground arith)
        (ground (arith, to_dnslink_fqdn-other c name lt n))
]

-- What gateways inline has no dot.
pub inline-no_dot : (name : Bytes) → contains_byte (inline name) b'.' ≡ false
unfolding contains_byte inline
inline-no_dot [] = refl
inline-no_dot (c ∷ name) = ground (arith, inline-no_dot name)
