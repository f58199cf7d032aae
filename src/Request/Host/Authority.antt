-- ===== src/Request/Host/Authority.antt =====
-- What `host_of_authority` of `src/service.rs` gives for an authority that is put together from its
-- parts.
use tower_guard_rs.Base.{
  ℕ, Text, true, false, Option, none, some, List, [], ◌∷◌, ◌++◌, all, split, is_empty,
  is_ascii_digit, ◌==◌, ◌≡◌, refl, ap, ◌∙◌, arith, ==_iff, All-append, Bool-cases, inl, inr,
}
use tower_guard_rs.Base.{Lacks, split-Lacks, split-append, split_once-Lacks}
use tower_guard_rs.Request.Host.{last_part, first_part, bare_host, host_of_authority}

first_part-Lacks :
    (sep : ℕ) (t rest : Text) → Lacks sep t → first_part (split sep (t ++ sep ∷ rest)) ≡ t
first_part-Lacks sep t rest h = ap first_part (split-append sep t rest h)

-- Behind a separator there are two parts or more, and the last of them is what stands behind the last
-- separator.
abbrev EndsIn : Text → List Text → Type 0
EndsIn t parts = (p q : Text) × (ps : List Text) × (parts ≡ p ∷ q ∷ ps) × (last_part (q ∷ ps) ≡ t)

split-EndsIn : (sep : ℕ) (user t : Text) → Lacks sep t → EndsIn t (split sep (user ++ sep ∷ t))
unfolding split
split-EndsIn sep [] t h = ([], t, [], rw ((==_iff sep sep).1 refl, split-Lacks sep t h) refl, refl)
split-EndsIn sep (c ∷ user) t h =
    let (p, q, ps, parts, last) = split-EndsIn sep user t h in
    elim (Bool-cases (c == sep)) [
      | inl separator ↦ ([], p, q ∷ ps, rw (separator, parts) refl, last)
      | inr other ↦ (c ∷ p, q, ps, rw (other, parts) refl, last)
    ]

last_part-EndsIn : (t : Text) (parts : List Text) → EndsIn t parts → last_part parts ≡ t
last_part-EndsIn t parts (p, q, ps, same, last) = ap last_part same ∙ last

-- An authority with the user information in front, or without one.
abbrev pub with_user : Option Text → Text → Text
with_user none t = t
with_user (some user) t = user ++ b'@' ∷ t

host_port :
    (user : Option Text) (t : Text)
    → Lacks b'@' t
    → host_of_authority (with_user user t) ≡ bare_host t
unfolding host_of_authority
host_port none t h = ap (λ ps. bare_host (last_part ps)) (split-Lacks b'@' t h)
host_port (some user) t h = ap bare_host (last_part-EndsIn t _ (split-EndsIn b'@' user t h))

digits-Lacks : (t : Text) → all is_ascii_digit t ≡ true → Lacks b'@' t
digits-Lacks [] h = tt
digits-Lacks (c ∷ t) h = (ground arith, digits-Lacks t (ground arith))

bare_host-port :
    (host port : Text)
    → Lacks b':' host
    → Lacks b'[' host
    → all is_ascii_digit port ≡ true
    → is_empty port ≡ false
    → bare_host (host ++ b':' ∷ port) ≡ host
unfolding bare_host
bare_host-port [] port colons brackets digits some_digit = rw (some_digit, digits) refl
bare_host-port (c ∷ host) port (colon, colons) (bracket, brackets) digits some_digit =
    rw (bracket, colon, split_once-Lacks b':' host port colons, some_digit, digits) refl

-- The host of an authority with a port, which may have user information in front: the host itself,
-- where it has no colon, no opening bracket and no at sign, and the port is one digit or more.
pub host_of_authority-port :
    (user : Option Text) (host port : Text)
    → Lacks b'@' host
    → Lacks b':' host
    → Lacks b'[' host
    → all is_ascii_digit port ≡ true
    → is_empty port ≡ false
    → host_of_authority (with_user user (host ++ b':' ∷ port)) ≡ host
host_of_authority-port user host port ats colons brackets digits some_digit =
    host_port user (host ++ b':' ∷ port) (
      All-append (λ c. (c == b'@') ≡ false) host (b':' ∷ port) ats (refl, digits-Lacks port digits))
    ∙ bare_host-port host port colons brackets digits some_digit

-- The host of an authority in brackets, an IPv6 address: what stands in the brackets, whatever follows
-- them, where it has no closing bracket, and no at sign stands in it or behind it.
pub host_of_authority-brackets :
    (user : Option Text) (host rest : Text)
    → Lacks b'@' host
    → Lacks b'@' rest
    → Lacks b']' host
    → host_of_authority (with_user user (b'[' ∷ (host ++ b']' ∷ rest))) ≡ host
unfolding bare_host
host_of_authority-brackets user host rest ats more closing =
    host_port user (b'[' ∷ (host ++ b']' ∷ rest))
      (refl, All-append (λ c. (c == b'@') ≡ false) host (b']' ∷ rest) ats (refl, more))
    ∙ first_part-Lacks b']' host rest closing
