-- ===== src/Hosts/Normal.antt =====
-- internal/handler/host.go: normalizeHost, with the standard library's trimming and splitting of a host.
use simple_host_enterprise.Common.{
  ℕ, Bool, false, not, ◌&&◌, ◌||◌, Option, none, some, [], ◌∷◌, map, Bytes, all, any, leb,
  if◌then◌else◌, ◌==◌, ℕ_eq, List_eq,
}
use simple_host_enterprise.Common.Text.{has_prefix, cut_byte, lower_byte}
use simple_host_enterprise.Hosts.{dot, is_ascii}

abbrev pub colon : ℕ
colon = 58

abbrev pub open_bracket : ℕ
open_bracket = 91

abbrev pub close_bracket : ℕ
close_bracket = 93

abbrev pub has_byte : ℕ → Bytes → Bool
has_byte c s = any (λ x. x == c) s

-- `strings.TrimSpace` of an ASCII text.
unfoldable pub is_space : ℕ → Bool
is_space c = c == 32 || (leb 9 c && leb c 13)

unfoldable pub trim_left : Bytes → Bytes
trim_left [] = []
trim_left (c ∷ cs) = let rest = trim_left cs in if is_space c then rest else c ∷ cs

unfoldable pub trim_right : Bytes → Bytes
trim_right [] = []
trim_right (c ∷ cs) = let rest = trim_right cs in if is_space c && rest == [] then [] else c ∷ rest

unfoldable pub trim_space : (Bytes → Bytes) → Bytes → Bytes
trim_space trim_unicode s = if all is_ascii s then trim_right (trim_left s) else trim_unicode s

-- `net.SplitHostPort`, of which the host is used: behind a closing bracket that the text opens with,
-- or in front of the only colon, and no further brackets.
unfoldable pub split_bracketed : Option (Bytes × Bytes) → Option Bytes
split_bracketed none = none
split_bracketed (some (host, [])) = none
split_bracketed (some (host, c ∷ port)) =
    if not (c == colon)
      || has_byte colon port
      || has_byte open_bracket host
      || has_byte open_bracket port
      || has_byte close_bracket port
    then none
    else some host

unfoldable pub split_plain : Option (Bytes × Bytes) → Option Bytes
split_plain none = none
split_plain (some (host, port)) =
    if has_byte colon port
      || has_byte open_bracket host
      || has_byte open_bracket port
      || has_byte close_bracket host
      || has_byte close_bracket port
    then none
    else some host

unfoldable pub split_host_port : Bytes → Option Bytes
split_host_port [] = none
split_host_port (c ∷ cs) =
    if c == open_bracket
    then split_bracketed (cut_byte close_bracket cs)
    else split_plain (cut_byte colon (c ∷ cs))

-- `strings.TrimSuffix(h, ".")`.
unfoldable pub trim_dot : Bytes → Bytes
trim_dot [] = []
trim_dot (c ∷ cs) = if c == dot && cs == [] then [] else c ∷ trim_dot cs

-- The text without its last byte.
unfoldable pub init : Bytes → Bytes
init [] = []
init (c ∷ cs) = if cs == [] then [] else c ∷ init cs

unfoldable pub ends_with_bracket : Bytes → Bool
ends_with_bracket [] = false
ends_with_bracket (c ∷ cs) = if cs == [] then c == close_bracket else ends_with_bracket cs

-- Where the text opens with a bracket: what is inside, if it is one IP literal.
unfoldable pub unwrap : (Bytes → Bool) → Bytes → Bytes
unwrap is_ip [] = []
unwrap is_ip (c ∷ cs) =
    if c == open_bracket && ends_with_bracket cs && is_ip (init cs) then init cs else c ∷ cs

-- The port, and a bracketed name that is no IP literal, which is no host at all.
unfoldable pub drop_port : (Bytes → Bool) → Bytes → Option Bytes → Bytes
drop_port is_ip h none = h
drop_port is_ip h (some host) =
    if has_prefix (open_bracket ∷ []) h && not (is_ip host) then [] else host

unfoldable pub normalize_host : (Bytes → Bytes) → (Bytes → Bool) → Bytes → Bytes
normalize_host trim_unicode is_ip raw =
    let h = trim_space trim_unicode raw in
    if h == [] || not (all is_ascii h)
    then []
    else if not (has_byte colon h)
    then trim_dot (map lower_byte (unwrap is_ip h))
    else if has_prefix (open_bracket ∷ []) h && drop_port is_ip h (split_host_port h) == []
    then []
    else trim_dot (map lower_byte (unwrap is_ip (drop_port is_ip h (split_host_port h))))
