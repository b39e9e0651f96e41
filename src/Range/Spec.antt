-- ===== src/Range/Spec.antt =====
-- The map as a function from addresses to attributes: what each operation of `RangeActionMap` does
-- to it, for every lawful segment type.
use maturin.Prelude.{
  ℕ, ◌+◌, ◌%◌, ◌≤◌, ◌<◌, ◌≡◌, inl, inr, max, ltb, leb, ◌&&◌, if◌then◌else◌, usize_mod, Option-cases,
  refl, sym, subst, ◌∙◌, Option, none, some, [], ◌∷◌, arith,
}
use mathlib.Core.Option
use maturin.Range.Segment.{M, Segment, IsLawful}
use maturin.Range.Area.{RangeArea, contains}
use maturin.Range.Tree.{BTreeMap, last_up_to}
use maturin.Range.Ram.{
  RangeActionMap, lower_limit, upper_limit, new, insert_raw, put, find, find_free_area, unmap,
  mprotect, mmap_anywhere, mmap_fixed,
}
use maturin.Range.Valid.{Chain, Free, prot, prot-Free}
use maturin.Range.Entries.{Live}
use maturin.Range.Loop.{Sound, Outside, Live-frame}
use maturin.Range.Unmap.{unmap_pass, put-Placed}
use maturin.Range.Protect.{repaint, mprotect_pass}
use maturin.Range.Find.{find_lem, flag-find, last_up_to-Live, Ends, find_free_area_sound}

module _ {W S : Type 0} {ops : Segment W S} (L : IsLawful ops) where
  -- The entries are ordered, disjoint and not empty, and every segment is in order for its range.
  pub record IsValid (m : RangeActionMap S) (w : W) : Type 0 where
    pub chain : Chain 0 m.segments
    pub live : Live (Sound L w) m.segments

  -- The attribute of an address, as `find` shows it.
  abbrev pub flag_at : RangeActionMap S → ℕ → Option ℕ
  flag_at m p = Option.map L.flag (find m p)

  -- A fresh map is valid and holds no address.
  pub new-IsValid :
      (args : ℕ) (w : W) → IsValid (new args) w × ((p : ℕ) → flag_at (new args) p ≡ none)
  unfolding new find last_up_to
  new-IsValid args w = (record { chain = tt; live = tt }, λ p. refl)

  -- What `find` returns is a segment in order for a range that holds the address.
  pub find-Spans :
      (m : RangeActionMap S) (w : W) (pos : ℕ) {s : S}
      → IsValid m w
      → find m pos ≡ some s
      → (a b : ℕ) × (a ≤ pos) × (pos < b) × L.Spans s a b w
  unfolding contains
  find-Spans m w pos {s} v h = elim (Option-cases (last_up_to pos m.segments)) [
    | inl e ↦ absurd (ground (arith, find_lem m pos, e))
    | inr ((k, a), e) ↦ (
      a.start,
      a.end,
      ground (arith, find_lem m pos, e),
      ground (arith, find_lem m pos, e),
      subst (λ x. L.Spans x a.start a.end w) (ground (arith, find_lem m pos, e))
          (last_up_to-Live (Sound L w) pos m.segments k a v.live e),
    )
  ]

  -- What `unmap_lem` says, and that nothing is left at an address that it empties.
  pub unmap-Bare :
      (m : RangeActionMap S) (w : W) (start end : ℕ)
      → L.Cut start
      → L.Cut end
      → start < end
      → IsValid m w
      → (m' : RangeActionMap S) × (w' : W) × (unmap ops m start end w ≡ some (m', w'))
        × IsValid m' w'
        × ((p : ℕ) → flag_at m' p ≡ (if leb start p && ltb p end then none else flag_at m p))
        × ((p f : ℕ) → flag_at m p ≡ some f → flag_at m' p ≡ none → L.Bare p w')
  unmap-Bare m w start end cs ce ne v =
      let (t', w', eq, c', l', view, bare) =
        unmap_pass L start end m.args cs ce ne m.segments w v.chain v.live in
      let m' : RangeActionMap S = record { segments = t'; args = m.args } in
      (
        m',
        w',
        eq,
        record { chain = c'; live = l' },
        λ p. rw (flag-find L.flag m' p c', flag-find L.flag m p v.chain) (view p),
        λ p f there gone.
            bare p f (sym (flag-find L.flag m p v.chain) ∙ there)
              (sym (flag-find L.flag m' p c') ∙ gone),
      )

  -- `unmap` returns, keeps the map valid, empties the addresses from `start` to `end` and leaves
  -- every other address as it was.
  pub unmap_lem :
      (m : RangeActionMap S) (w : W) (start end : ℕ)
      → L.Cut start
      → L.Cut end
      → start < end
      → IsValid m w
      → (m' : RangeActionMap S) × (w' : W) × (unmap ops m start end w ≡ some (m', w'))
        × IsValid m' w'
        × ((p : ℕ) → flag_at m' p ≡ (if leb start p && ltb p end then none else flag_at m p))
  unmap_lem m w start end cs ce ne v =
      let (m', w', eq, v', view, _) = unmap-Bare m w start end cs ce ne v in (m', w', eq, v', view)

  -- `mprotect` returns, keeps the map valid, gives each mapped address from `start` to `end` the
  -- new attribute and leaves every other address as it was.
  pub mprotect_lem :
      (m : RangeActionMap S) (w : W) (start end new_flags : ℕ)
      → L.Cut start
      → L.Cut end
      → start < end
      → L.Flag new_flags
      → IsValid m w
      → (m' : RangeActionMap S) × (w' : W) × (mprotect ops m start end new_flags w ≡ some (m', w'))
        × IsValid m' w'
        × ((p : ℕ)
            → flag_at m' p
              ≡ (if leb start p && ltb p end then repaint new_flags (flag_at m p) else flag_at m p))
  mprotect_lem m w start end new_flags cs ce ne al v =
      let (t', w', eq, c', l', view) =
        mprotect_pass L start end new_flags m.args cs ce ne al m.segments w v.chain v.live in
      let m' : RangeActionMap S = record { segments = t'; args = m.args } in
      (
        m',
        w',
        eq,
        record { chain = c'; live = l' },
        λ p. rw (flag-find L.flag m' p c', flag-find L.flag m p v.chain) (view p),
      )

  -- A range that no attribute lies in is free.
  Free-of-prot :
      (a b lo : ℕ) (t : BTreeMap (RangeArea S))
      → a < b
      → Chain lo t
      → ((p : ℕ) → a ≤ p → p < b → prot L.flag p t ≡ none)
      → Free a b t
  unfolding contains
  Free-of-prot a b lo [] ne c h = tt
  Free-of-prot a b lo ((k, u) ∷ t) ne c h = (
    ground (arith, h (max a u.start)),
    Free-of-prot a b u.end t ne c.3 (λ p x y. ground (arith, h p x y)),
  )

  -- The segment that a closure makes for a range.
  pub record Makes (f : M W S) (a b flag : ℕ) (w : W) (s : S) (w' : W) : Type 0 where
    pub makes : f w ≡ some (s, w')
    pub spans : L.Spans s a b w'
    pub flagged : L.flag s ≡ flag
    pub outside : Outside L a b w w'

  -- Inserting a fresh segment in a free range.
  insert_raw_lem :
      (m : RangeActionMap S) (a b flag : ℕ) (f : M W S) (w : W) (s : S) (w' : W)
      → a < b
      → Free a b m.segments
      → IsValid m w
      → Makes f a b flag w s w'
      → IsValid (insert_raw m a b s) w'
        × ((p : ℕ)
            → flag_at (insert_raw m a b s) p
              ≡ (if leb a p && ltb p b then some flag else flag_at m p))
  unfolding insert_raw put contains
  insert_raw_lem m a b flag f w s w' ne fr v k =
      let u : RangeArea S = record { start = a; end = b; segment = s } in
      let pl =
        put-Placed L m.segments u w' ne k.spans v.chain
          (Live-frame L a b w w' m.segments k.outside fr v.live) fr in
      (
        record { chain = pl.chain; live = pl.live },
        λ p.
            rw (flag-find L.flag (insert_raw m a b s) p pl.chain, flag-find L.flag m p v.chain)
              (ground (arith, pl.view p, k.flagged, prot-Free L.flag a b p m.segments fr)),
      )

  -- Where `find_free_area` finds a range, its length is above zero, and no end of an area and no
  -- hint is so high that the addition wraps, `mmap_anywhere` returns the range's start, at or above
  -- the hint and the lower limit; the map stays valid; the range held no address before, holds the
  -- new segment now, and every other address is as it was.
  pub mmap_anywhere_lem :
      (m : RangeActionMap S) (hint len b x flag : ℕ) (f : ℕ → M W S) (w : W) (s : S) (w' : W)
      → 0 < len
      → Ends b m.segments
      → max hint lower_limit ≤ b
      → b + len < usize_mod
      → IsValid m w
      → find_free_area m hint len ≡ some x
      → Makes (f x) x (x + len) flag w s w'
      → (m' : RangeActionMap S) × (mmap_anywhere m hint len f w ≡ some ((some x, m'), w'))
        × (max hint lower_limit ≤ x)
        × IsValid m' w'
        × ((p : ℕ) → (if leb x p && ltb p (x + len) then flag_at m p else none) ≡ none)
        × ((p : ℕ) → flag_at m' p ≡ (if leb x p && ltb p (x + len) then some flag else flag_at m p))
  unfolding mmap_anywhere
  mmap_anywhere_lem m hint len b x flag f w s w' pos ends h k v found mk =
      let (lo, hi, fr) = find_free_area_sound m hint len b x v.chain ends h k found in
      let (v', view) = insert_raw_lem m x (x + len) flag (f x) w s w' (omega arith) fr v mk in
      let e : (x + len) % usize_mod ≡ x + len = omega (arith, hi) in
      (
        insert_raw m x (x + len) s,
        ground (arith, found, mk.makes, e),
        lo,
        v',
        λ p.
            rw (flag-find L.flag m p v.chain)
              (ground (arith, prot-Free L.flag x (x + len) p m.segments fr)),
        view,
      )

  -- `mmap_fixed` refuses a range that begins below the lower limit, and changes nothing.
  pub mmap_fixed_refused :
      (m : RangeActionMap S) (start end : ℕ) (f : M W S) (w : W)
      → start < lower_limit
      → mmap_fixed ops m start end f w ≡ some ((none, m), w)
  unfolding mmap_fixed
  mmap_fixed_refused m start end f w h = ground arith

  -- Where the closure makes a segment in whatever world `unmap` leaves, `mmap_fixed` on any other
  -- range puts that segment in the place of all that was there, and leaves every other address as
  -- it was.
  pub mmap_fixed_lem :
      (m : RangeActionMap S) (w : W) (start end flag : ℕ) (f : M W S)
      → L.Cut start
      → L.Cut end
      → start < end
      → lower_limit ≤ start
      → end ≤ upper_limit
      → IsValid m w
      → ((u : W) → (s : S) × (u' : W) × Makes f start end flag u s u')
      → (m' : RangeActionMap S) × (w' : W) × (mmap_fixed ops m start end f w
          ≡ some ((some start, m'), w'))
        × IsValid m' w'
        × ((p : ℕ) → flag_at m' p ≡ (if leb start p && ltb p end then some flag else flag_at m p))
  unfolding mmap_fixed
  mmap_fixed_lem m w start end flag f cs ce ne lo hi v mk =
      let (m1, w1, e1, v1, view1) = unmap_lem m w start end cs ce ne v in
      let (s, w2, k) = mk w1 in
      let fr =
        Free-of-prot start end 0 m1.segments ne v1.chain
          λ p x y. sym (flag-find L.flag m1 p v1.chain) ∙ view1 p ∙ ground arith in
      let (v2, view2) = insert_raw_lem m1 start end flag f w1 s w2 ne fr v1 k in
      (
        insert_raw m1 start end s,
        w2,
        ground (arith, e1, k.makes),
        v2,
        λ p. ground (arith, view1 p, view2 p),
      )
