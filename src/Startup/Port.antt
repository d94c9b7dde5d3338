-- ===== src/Startup/Port.antt =====
-- The port of the environment, in cmd/virtual-kubelet/main.go.
use macos_exec_kubelet.Base.{
  ℕ, zero, suc, ◌^◌, ℤ, pos, negsuc, message, Result, ok, err, ◌>>=◌, if◌then◌else◌, ltb, ◌==◌,
  nat_eq, string_eq,
}
use Prim.Native.String.{String, [], ◌∷◌}
use Prim.Native.Char.{code}
use macos_exec_kubelet.Client.User.{parse_uint32}

abbrev out_of_range : Result ℤ
out_of_range = err (message "value out of range")

positive : ℕ → Result ℤ
positive n = if ltb n (2 ^ 31) then ok (pos n) else out_of_range

negative : ℕ → Result ℤ
negative zero = ok (pos 0)
negative (suc n) = if ltb n (2 ^ 31) then ok (negsuc n) else out_of_range

-- strconv.ParseInt(s, 10, 32): a sign, and the digits.
unfoldable pub parse_int32 : String → Result ℤ
unfolding positive negative
parse_int32 [] = err (message "invalid syntax")
parse_int32 (c ∷ s) =
    if code c == b'-'
    then parse_uint32 s >>= negative
    else if code c == b'+'
    then parse_uint32 s >>= positive
    else parse_uint32 (c ∷ s) >>= positive

-- KUBELET_PORT in place of the default port.
unfoldable pub listen_port_of : String → ℤ → Result ℤ
unfolding parse_int32
listen_port_of port default_port = if port == "" then ok default_port else parse_int32 port
