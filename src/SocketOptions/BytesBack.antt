-- ===== src/SocketOptions/BytesBack.antt =====
-- What an option that is a byte string reads back as after it is set.
use libzmq_ru.Base.{ℕ, ◌≡◌, Bool, true, false, List, arith}
use libzmq_ru.Base.Int.{pos}
use libzmq_ru.Error.{ok}
use libzmq_ru.Security.{set_curve_key}
use libzmq_ru.SocketOptions.{OptionSocket}
use libzmq_ru.SocketOptions.Bytes.{
  BytesOption, bytes_code, bytes_named-bytes_code, set_bytes_known, set_bytes_named,
  set_option_bytes, c_string_option, read_bytes, read_bytes_named, get_option_bytes,
  connect_routing_id, xpub_welcome_msg, socks_proxy, socks_username, socks_password, bindtodevice,
  hello_msg, disconnect_msg, hiccup_msg,
}

-- The options that can be set and not read.
abbrev pub is_write_only : BytesOption → Bool
is_write_only connect_routing_id = true
is_write_only xpub_welcome_msg = true
is_write_only hello_msg = true
is_write_only disconnect_msg = true
is_write_only hiccup_msg = true
is_write_only _ = false

-- Texts for C come back with a zero behind them.
abbrev pub shown : BytesOption → List ℕ → List ℕ
shown socks_proxy value = c_string_option value
shown socks_username value = c_string_option value
shown socks_password value = c_string_option value
shown bindtodevice value = c_string_option value
shown _ value = value

known_back :
    (s : OptionSocket) (o : BytesOption) (value : List ℕ)
    → is_write_only o ≡ false
    → (set_bytes_known s o value).1 ≡ ok tt
    → read_bytes (set_bytes_known s o value).0 o ≡ ok (shown o value)
unfolding set_bytes_known read_bytes set_curve_key
known_back s o value readable done = ground arith

-- A byte string that an option accepts is what it reads back as, with a zero behind it for the
-- options of SOCKS and the device. The option is none of those that cannot be read.
pub get_option_bytes-set_option_bytes :
    (s : OptionSocket) (o : BytesOption) (value : List ℕ)
    → is_write_only o ≡ false
    → (set_option_bytes s (pos (bytes_code o)) value).1 ≡ ok tt
    → get_option_bytes (set_option_bytes s (pos (bytes_code o)) value).0 (pos (bytes_code o))
      ≡ ok (shown o value)
unfolding set_option_bytes get_option_bytes set_bytes_named read_bytes_named
get_option_bytes-set_option_bytes s o value readable =
    rw (bytes_named-bytes_code o) (known_back s o value readable)
