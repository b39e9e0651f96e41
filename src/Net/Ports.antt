-- ===== src/Net/Ports.antt =====
-- A port is a queue of bytes with a limit, and one port's calls do not touch the others.
use maturin.Prelude.{
  append_nil, ℕ, zero, suc, ◌-◌, ◌≤◌, ◌≡◌, min, ◌==◌, if◌then◌else◌, length, take, drop,
  length-append, length-take, refl, sym, none, some, Option-cases, Bool-cases, inl, inr, List, [],
  ◌∷◌, ◌++◌, arith,
}
use maturin.File.VirtFile.{write_at}
use maturin.Net.{
  socket_buffer_size_limit, PortMap, insert, read, write, can_read, can_write, read_from_port,
  write_to_port,
}

-- The bytes that wait at a port.
abbrev pub waiting : PortMap → ℕ → List ℕ
waiting map port = elim (map port) [ none ↦ [] | some data' ↦ data' ]

write_lem :
    (data' buf : List ℕ)
    → ((write data' buf).0 ≡ (
        if min (socket_buffer_size_limit - length data') (length buf) == 0
        then none
        else some (min (socket_buffer_size_limit - length data') (length buf))))
      × ((write data' buf).1
          ≡ data' ++ take (min (socket_buffer_size_limit - length data') (length buf)) buf)
unfolding write
write_lem data' buf =
    elim (Bool-cases (min (socket_buffer_size_limit - length data') (length buf) == 0)) [
      | inl full ↦
          let z : min (socket_buffer_size_limit - length data') (length buf) ≡ 0 =
            ground (arith, full) in
          (rw full refl, rw (full, z) (sym (append_nil data')))
      | inr fits ↦ (rw fits refl, rw fits refl)
    ]

-- `write_to_port` at a port that holds no more than the limit puts as many of the buffer's first
-- bytes as there is room for behind those that wait there, returns their number, or `none` where it
-- is 0, leaves every other port, and keeps the limit.
pub write_to_port_lem :
    (map : PortMap) (port : ℕ) (buf : List ℕ)
    → length (waiting map port) ≤ socket_buffer_size_limit
    → ((write_to_port map port buf).0 ≡ (
        if min (socket_buffer_size_limit - length (waiting map port)) (length buf) == 0
        then none
        else some (min (socket_buffer_size_limit - length (waiting map port)) (length buf))))
      × ((p : ℕ)
          → waiting (write_to_port map port buf).1 p ≡ (
              if p == port
              then waiting map port
                ++ take
                    (min (socket_buffer_size_limit - length (waiting map port)) (length buf))
                    buf
              else waiting map p))
      × (length (waiting (write_to_port map port buf).1 port) ≤ socket_buffer_size_limit)
unfolding write_to_port insert
write_to_port_lem map port buf h = elim (Option-cases (map port)) [
  | inl closed ↦
      let w = write_lem [] buf in
      let len = length-take (min (socket_buffer_size_limit - 0) (length buf)) buf in
      (
        ground (arith, closed, w.0),
        (λ p. ground (arith, closed, w.1)),
        ground (arith, closed, w.1, len),
      )
  | inr (data', held) ↦
      let w = write_lem data' buf in
      let n = min (socket_buffer_size_limit - length data') (length buf) in
      let len = length-take n buf in
      let all = length-append data' (take n buf) in
      (
        ground (arith, held, w.0),
        (λ p. ground (arith, held, w.1)),
        ground (arith, held, w.1, len, all, h),
      )
]

take-nil : (n : ℕ) → take {A = ℕ} n [] ≡ []
take-nil zero = refl
take-nil (suc n) = refl

drop-nil : (n : ℕ) → drop {A = ℕ} n [] ≡ []
drop-nil zero = refl
drop-nil (suc n) = refl

write_at-nil : (buf : List ℕ) → write_at buf 0 [] ≡ buf
write_at-nil [] = refl
write_at-nil (b ∷ buf) = refl

-- `read_from_port` returns `none` and changes nothing where no bytes wait; otherwise it returns the
-- lesser of their number and the buffer's length, puts that many of the oldest in the front of the
-- buffer and takes them from the port; every other port is left.
pub read_from_port_lem :
    (map : PortMap) (port : ℕ) (buf : List ℕ)
    → ((read_from_port map port buf).0 ≡ (
        if length (waiting map port) == 0
        then none
        else some (min (length (waiting map port)) (length buf))))
      × ((read_from_port map port buf).1
          ≡ write_at buf 0 (take (min (length (waiting map port)) (length buf)) (waiting map port)))
      × ((p : ℕ)
          → waiting (read_from_port map port buf).2 p ≡ (
              if p == port
              then drop (min (length (waiting map port)) (length buf)) (waiting map port)
              else waiting map p))
unfolding read_from_port insert read
read_from_port_lem map port buf = elim (Option-cases (map port)) [
  | inl closed ↦
      let n = min 0 (length buf) in
      (
        ground (arith, closed),
        ground (arith, closed, take-nil n, write_at-nil buf),
        λ p. ground (arith, closed, drop-nil n),
      )
  | inr ([], held) ↦
      let n = min 0 (length buf) in
      (
        ground (arith, held),
        ground (arith, held, take-nil n, write_at-nil buf),
        λ p. ground (arith, held, drop-nil n),
      )
  | inr (x ∷ xs, held) ↦ (ground (arith, held), ground (arith, held), λ p. ground (arith, held))
]

-- What `can_read` and `can_write` say is what the calls then do: a read of any buffer, and a write
-- of one that is not empty to a port that holds no more than the limit, fail exactly where they say
-- `none`, and otherwise move the lesser of the number they say and the buffer's length.
pub ready_lem :
    (map : PortMap) (port : ℕ) (buf : List ℕ) (b : ℕ) (bs : List ℕ)
    → length (waiting map port) ≤ socket_buffer_size_limit
    → ((read_from_port map port buf).0
        ≡ elim (can_read map port) [ none ↦ none | some n ↦ some (min n (length buf)) ])
      × ((write_to_port map port (b ∷ bs)).0
          ≡ elim (can_write map port) [ none ↦ none | some n ↦ some (min n (length (b ∷ bs))) ])
unfolding can_read can_write read_from_port read write_to_port write
ready_lem map port buf b bs h = elim (Option-cases (map port)) [
  | inl closed ↦ (ground (arith, closed), ground (arith, closed))
  | inr (data', held) ↦ (ground (arith, held), ground (arith, held, h))
]
