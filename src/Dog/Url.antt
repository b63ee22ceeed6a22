-- ===== src/Dog/Url.antt =====
-- dog_command_forwarder.cpp: `ParseWsUrl`, on the codes of the characters. `std::stoul` is a parameter:
-- `none` where it throws.
use rtc_framework.Base.{
  ℕ, ◌<◌, ◌≤◌, ◌≡◌, refl, Bool, true, false, not, ◌&&◌, ◌||◌, String, List, [], ◌∷◌, ◌++◌, Option,
  none, some, ltb, ◌==◌, arith, if◌then◌else◌,
}

abbrev pub Text : Type 0
Text = List ℕ

-- The characters that are looked for.
abbrev pub slash : ℕ
slash = 47

abbrev pub colon : ℕ
colon = 58

abbrev pub open_bracket : ℕ
open_bracket = 91

abbrev pub close_bracket : ℕ
close_bracket = 93

-- The text before the first such character, and the text after it, if there is one.
abbrev pub before : ℕ → Text → Text
before c [] = []
before c (x ∷ xs) = if x == c then [] else x ∷ before c xs

abbrev pub after_first : ℕ → Text → Option Text
after_first c [] = none
after_first c (x ∷ xs) = if x == c then some xs else after_first c xs

abbrev pub has_char : ℕ → Text → Bool
has_char c [] = false
has_char c (x ∷ xs) = (x == c) || has_char c xs

-- `ws://`, and what follows it.
abbrev pub scheme : Text
scheme = 119 ∷ 115 ∷ 58 ∷ 47 ∷ 47 ∷ []

abbrev pub without : Text → Text → Option Text
without [] xs = some xs
without (p ∷ ps) [] = none
without (p ∷ ps) (x ∷ xs) = if x == p then without ps xs else none

abbrev pub is_nil : Text → Bool
is_nil [] = true
is_nil (x ∷ xs) = false

pub record ParsedWsUrl : Type 0 where
  pub host : Text
  pub port : Text
  pub host_header : Text
  pub path : Text

pub data Parsed (A : Type 0) : Type 0 where
  url_refused : String → Parsed A
  url_parsed : A → Parsed A

abbrev pub default_port : Text
default_port = 56 ∷ 48 ∷ []

-- The host and the port: between brackets, and else around the only colon.
unfoldable pub bracketed_port : Text → Option Text → Parsed (Text × Text)
bracketed_port host none = url_refused "rosbridge_url contains an invalid IPv6 host"
bracketed_port host (some []) = url_parsed (host, default_port)
bracketed_port host (some (x ∷ xs)) =
    if not (x == colon) || is_nil xs
    then url_refused "rosbridge_url contains an invalid port"
    else url_parsed (host, xs)

unfoldable pub plain_port : Text → Option Text → Parsed (Text × Text)
plain_port authority none = url_parsed (authority, default_port)
plain_port authority (some port) =
    if has_char colon port || (is_nil (before colon authority) || is_nil port)
    then url_refused "IPv6 addresses in rosbridge_url must use brackets"
    else url_parsed (before colon authority, port)

unfoldable pub parse_authority : Text → Parsed (Text × Text)
unfolding bracketed_port plain_port
parse_authority [] = url_refused "rosbridge_url must contain a host"
parse_authority (x ∷ xs) =
    if x == open_bracket
    then bracketed_port (before close_bracket xs) (after_first close_bracket xs)
    else plain_port (x ∷ xs) (after_first colon (x ∷ xs))

abbrev pub path_of : Option Text → Text
path_of none = slash ∷ []
path_of (some xs) = slash ∷ xs

module _ (stoul : Text → Option ℕ) where
  unfoldable pub port_is_valid : Option ℕ → Bool
  port_is_valid none = false
  port_is_valid (some n) = not (n == 0) && not (ltb 65535 n)

  unfoldable pub check_port : Text → Text → Parsed (Text × Text) → Parsed ParsedWsUrl
  unfolding port_is_valid
  check_port authority path (url_refused text) = url_refused text
  check_port authority path (url_parsed (host, port)) =
      if not (port_is_valid (stoul port))
      then url_refused "rosbridge_url contains an invalid port"
      else url_parsed (record { host = host; port = port; host_header = authority; path = path })

  unfoldable pub parse_remainder : Option Text → Parsed ParsedWsUrl
  unfolding check_port parse_authority
  parse_remainder none = url_refused "rosbridge_url must start with ws://"
  parse_remainder (some remainder) =
      check_port (before slash remainder) (path_of (after_first slash remainder))
        (parse_authority (before slash remainder))

  unfoldable pub parse_ws_url : Text → Parsed ParsedWsUrl
  unfolding parse_remainder
  parse_ws_url url = parse_remainder (without scheme url)

before-append : (c : ℕ) (xs ys : Text) → has_char c xs ≡ false → before c (xs ++ c ∷ ys) ≡ xs
before-append c [] ys h = ground arith
before-append c (x ∷ xs) ys h = ground (arith, before-append c xs ys)

after_first-append :
    (c : ℕ) (xs ys : Text) → has_char c xs ≡ false → after_first c (xs ++ c ∷ ys) ≡ some ys
after_first-append c [] ys h = ground arith
after_first-append c (x ∷ xs) ys h = ground (arith, after_first-append c xs ys)

has_char-append :
    (c d : ℕ) (xs ys : Text)
    → has_char c xs ≡ false
    → has_char c ys ≡ false
    → (d == c) ≡ false
    → has_char c (xs ++ d ∷ ys) ≡ false
has_char-append c d [] ys h k n = ground arith
has_char-append c d (x ∷ xs) ys h k n = ground (arith, has_char-append c d xs ys)

authority-parsed :
    (x : ℕ) (host port : Text)
    → (x == open_bracket) ≡ false
    → has_char colon (x ∷ host) ≡ false
    → has_char colon port ≡ false
    → is_nil port ≡ false
    → parse_authority ((x ∷ host) ++ colon ∷ port) ≡ url_parsed (x ∷ host, port)
unfolding parse_authority plain_port
authority-parsed x host port b h k n =
    ground
      (arith, before-append colon (x ∷ host) port h, after_first-append colon (x ∷ host) port h)

-- A URL that is put together of a host, a port and a path is parsed into these: the host is not empty,
-- does not begin with a bracket and has no colon and no slash, and the port is not empty, has none
-- either, and is read as a number from 1 to 65535.
pub parsed_from_parts :
    (stoul : Text → Option ℕ) (x : ℕ) (host port path : Text) (n : ℕ)
    → (x == open_bracket) ≡ false
    → has_char colon (x ∷ host) ≡ false
    → has_char slash (x ∷ host) ≡ false
    → has_char colon port ≡ false
    → has_char slash port ≡ false
    → is_nil port ≡ false
    → stoul port ≡ some n
    → 0 < n
    → n ≤ 65535
    → let authority = (x ∷ host) ++ colon ∷ port in
      parse_ws_url stoul (scheme ++ (authority ++ slash ∷ path))
      ≡ url_parsed
          (record { host = x ∷ host; port = port; host_header = authority; path = slash ∷ path })
unfolding parse_ws_url parse_remainder check_port port_is_valid
parsed_from_parts stoul x host port path n b h k c d e r low high =
    let authority : Text = (x ∷ host) ++ colon ∷ port in
    let clear = has_char-append slash colon (x ∷ host) port k d refl in
    rw
      (
        before-append slash authority path clear,
        after_first-append slash authority path clear,
        authority-parsed x host port b h c e,
        r,
      )
      (ground (arith, low, high))
