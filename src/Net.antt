-- ===== src/Net.antt =====
-- kernel/src/file/socket/loopback.rs: the data that wait at the ports of the loopback interface.
pub mod Ports
pub mod Tests
use maturin.Prelude.{
  ℕ, ◌+◌, ◌-◌, ◌*◌, min, Bool, leb, ltb, ◌==◌, if◌then◌else◌, length, take, drop, usize_mod, Option,
  none, some, List, [], ◌++◌,
}
use maturin.File.VirtFile.{write_at}

abbrev pub socket_buffer_size_limit : ℕ
socket_buffer_size_limit = 0x200000

-- `PORT_MAP`: the data of a port, once something was written to it.
abbrev pub PortMap : Type 0
PortMap = ℕ → Option (List ℕ)

unfoldable pub insert : PortMap → ℕ → List ℕ → PortMap
insert map port data' p = if p == port then some data' else map p

-- `PortData::read`: the number of bytes, the buffer with them in its front, and the rest.
unfoldable pub read : List ℕ → List ℕ → Option ℕ × List ℕ × List ℕ
read data' buf =
    let read_len = min (length data') (length buf) in
    (some read_len, write_at buf 0 (take read_len data'), drop read_len data')

-- `PortData::write`
unfoldable pub write : List ℕ → List ℕ → Option ℕ × List ℕ
write data' buf =
    let write_len = min (socket_buffer_size_limit - length data') (length buf) in
    if write_len == 0 then (none, data') else (some write_len, data' ++ take write_len buf)

unfoldable pub can_read : PortMap → ℕ → Option ℕ
can_read map port = elim (map port) [
  | none ↦ none
  | some data' ↦ if ltb 0 (length data') then some (length data') else none
]

unfoldable pub can_write : PortMap → ℕ → Option ℕ
can_write map port = elim (map port) [
  | none ↦ some socket_buffer_size_limit
  | some data' ↦
      if ltb (length data') socket_buffer_size_limit
      then some (socket_buffer_size_limit - length data')
      else none
]

unfoldable pub read_from_port : PortMap → ℕ → List ℕ → Option ℕ × List ℕ × PortMap
read_from_port map port buf = elim (map port) [
  | none ↦ (none, buf, map)
  | some data' ↦
      let (n, buf', rest) = read data' buf in
      if ltb 0 (length data') then (n, buf', insert map port rest) else (none, buf, map)
]

unfoldable pub write_to_port : PortMap → ℕ → List ℕ → Option ℕ × PortMap
write_to_port map port buf = elim (map port) [
  | none ↦ let (n, data') = write [] buf in (n, insert map port data')
  | some data' ↦ let (n, data'') = write data' buf in (n, insert map port data'')
]
