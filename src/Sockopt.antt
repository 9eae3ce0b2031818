-- ===== src/Sockopt.antt =====
-- src/sockopt.rs: `bind_to_device`. The system call is a parameter: the level, the option and the
-- buffer give its error, or none.
pub mod Name
mod Tests
use kirb_la_snoop.Base.{
  ℕ, ◌||◌, Option, none, some, [], ◌++◌, Bytes, Text, length, drop, replicate, leb, ◌==◌,
  if◌then◌else◌, Result, ok, err,
}
use kirb_la_snoop.Base.Utf8.{as_bytes}

abbrev pub sol_socket : ℕ
sol_socket = 1

abbrev pub so_bindtodevice : ℕ
so_bindtodevice = 25

abbrev pub ifnamsiz : ℕ
ifnamsiz = 16

abbrev pub Setsockopt : Type 0
Setsockopt = ℕ → ℕ → Bytes → Option Text

pub data DeviceError : Type 0 where
  bad_name : DeviceError
  binding : Text → DeviceError

-- The buffer: zeros, with the name copied over the first of them.
unfoldable pub name_buffer : Bytes → Bytes
name_buffer name = name ++ drop (length name) (replicate ifnamsiz 0)

abbrev pub call_result : Option Text → Result DeviceError (Unit {0})
call_result none = ok tt
call_result (some e) = err (binding e)

-- `bind_to_device`
unfoldable pub bind_to_device : Setsockopt → Text → Result DeviceError (Unit {0})
unfolding name_buffer
bind_to_device k iface =
    let name = as_bytes iface in
    if length name == 0 || leb ifnamsiz (length name)
    then err bad_name
    else call_result (k sol_socket so_bindtodevice (name_buffer name))
