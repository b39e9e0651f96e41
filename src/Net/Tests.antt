-- ===== src/Net/Tests.antt =====
-- A port with three bytes.
use maturin.Prelude.{ℕ, ◌≡◌, min, ◌==◌, if◌then◌else◌, take, drop, none, some, [], ◌∷◌}
use maturin.Net.{PortMap, read_from_port}
use maturin.Net.Ports.{waiting, read_from_port_lem}
use maturin.File.VirtFile.{write_at}

abbrev ports : PortMap
ports p = if p == 80 then some (1 ∷ 2 ∷ 3 ∷ []) else none

read_from_port_lem_example :
    ((read_from_port ports 80 (0 ∷ 0 ∷ [])).0 ≡ (if 3 == 0 then none else some (min 3 2)))
    × ((read_from_port ports 80 (0 ∷ 0 ∷ [])).1
        ≡ write_at (0 ∷ 0 ∷ []) 0 (take (min 3 2) (waiting ports 80)))
    × ((p : ℕ)
        → waiting (read_from_port ports 80 (0 ∷ 0 ∷ [])).2 p
          ≡ (if p == 80 then drop (min 3 2) (waiting ports 80) else waiting ports p))
read_from_port_lem_example = read_from_port_lem ports 80 (0 ∷ 0 ∷ [])
