-- ===== src/Heap/Place.antt =====
-- The two ways in which `alloc_locked` takes a block that fits (kernel/src/heap.rs).
use package.solaros.Prelude.{
  sub_u64, ℕ, ◌+◌, ◌-◌, ◌%◌, ◌≤◌, ◌<◌, ◌≡◌, ◌≢◌, refl, sym, ◌∙◌, ap, subst, List, [], ◌∷◌, ◌++◌,
  All, All-map, arith,
}
use mathlib.Core.List.{tail}
use solaros.Heap.{FreeBlock, Heap, set_next, set_size, set_link, take_block, split_block}
use solaros.Heap.Blocks.{
  Block, Apart, Sound, Sound-pull, Sound-insert, Sound-pos, Sound-cut, Elsewhere-of_Apart,
  All-insert, onto, onto-All, onto-Sound,
}
use solaros.Heap.Chain.{
  Headers, Chain, Back, last_addr, Agree, Chain-Agree, Back-Agree, Chain-onto, update_self,
  update-Agree, set_link-headers, set_link-Back,
}
use solaros.Heap.Inv.{IsHeap, All-parts, Sound-low, last_elsewhere, last_addr-ne}

-- The walk stands at the block `b`, between `past`, in reverse, and `rest`.
pub record At (h : Heap) (past : List Block) (b : Block) (rest live : List Block) : Type 0 where
  pub back : Back h past b.addr
  pub size : (h.headers b.addr).size ≡ b.size
  pub chain : Chain h.headers (h.headers b.addr).next rest
  pub sizes : All (λ b. (h.headers b.addr).size ≡ b.size) live
  pub sound : Sound (past ++ (b ∷ rest ++ live))

Agree-trans :
    (hs hs' hs'' : Headers) (bs : List Block)
    → Agree hs hs' bs
    → Agree hs' hs'' bs
    → Agree hs hs'' bs
Agree-trans hs hs' hs'' [] a b = tt
Agree-trans hs hs' hs'' (x ∷ bs) a b = (b.0 ∙ a.0, Agree-trans hs hs' hs'' bs a.1 b.1)

pub sizes-Agree :
    (hs hs' : Headers) (bs : List Block)
    → Agree hs hs' bs
    → All (λ b. (hs b.addr).size ≡ b.size) bs
    → All (λ b. (hs' b.addr).size ≡ b.size) bs
sizes-Agree hs hs' [] a s = tt
sizes-Agree hs hs' (b ∷ bs) a s = (ap FreeBlock.size a.0 ∙ s.0, sizes-Agree hs hs' bs a.1 s.1)

set_link-Agree :
    (p v : ℕ) (h : Heap) (bs : List Block)
    → All (λ b. b.addr ≢ p) bs
    → Agree h.headers (set_link p v h).headers bs
set_link-Agree p v h bs = All-map (λ b ne. set_link-headers p v b.addr h ne) bs

-- The headers as `split_block` leaves them, before the link.
abbrev cut_headers : ℕ → ℕ → ℕ → ℕ → ℕ → Headers → Headers
cut_headers b r n front_size back_size hs =
    set_next b 0 (set_size b front_size (set_next r n (set_size r back_size hs)))

module _ (b r n front_size back_size : ℕ) (hs : Headers) where
  cut_ne : (x : ℕ) → x ≢ b → x ≢ r → cut_headers b r n front_size back_size hs x ≡ hs x
  cut_ne x nb nr = ground arith

  cut_back :
      r ≢ b
      → ((cut_headers b r n front_size back_size hs r).size ≡ back_size)
        × ((cut_headers b r n front_size back_size hs r).next ≡ n)
  cut_back ne = ground arith

  cut_front : (cut_headers b r n front_size back_size hs b).size ≡ front_size
  cut_front = ground arith

  cut-Agree :
      (bs : List Block)
      → All (λ c. c.addr ≢ b) bs
      → All (λ c. c.addr ≢ r) bs
      → Agree hs (cut_headers b r n front_size back_size hs) bs
  cut-Agree [] nb nr = tt
  cut-Agree (c ∷ bs) nb nr = (cut_ne c.addr nb.0 nr.0, cut-Agree bs nb.1 nr.1)

module _ (h : Heap) (past : List Block) (b : Block) (rest live : List Block)
    (at : At h past b rest live) where
  pub pulled : Sound (b ∷ past ++ (rest ++ live))
  pulled = Sound-pull past (rest ++ live) b at.sound

  -- An address in the block is none of the others'.
  elsewhere :
      (a : ℕ)
      → b.addr ≤ a
      → a < b.addr + b.size
      → All (λ c. c.addr ≢ a) past × All (λ c. c.addr ≢ a) (rest ++ live)
  elsewhere a low high =
      let s = pulled in
      All-parts (λ c. c.addr ≢ a) past (rest ++ live)
        (Elsewhere-of_Apart b a (past ++ (rest ++ live)) low high
          (Sound-pos (past ++ (rest ++ live)) s.2) s.1)

  past_low : All (λ c. 0 < c.addr) past
  past_low =
      (All-parts (λ (c : Block). 0 < c.addr) past (rest ++ live)
        (Sound-low (past ++ (rest ++ live)) pulled.2)).0

  abbrev prev : ℕ
  prev = last_addr past

  not_prev :
      All (λ c. c.addr ≢ prev) (tail past)
      × (b.addr ≢ prev)
      × All (λ c. c.addr ≢ prev) (rest ++ live)
  not_prev = let r = last_elsewhere past (b ∷ rest ++ live) at.sound in (r.0, r.1.0, r.1.1)

  -- The whole block leaves the list.
  pub take_block-IsHeap : IsHeap (take_block prev b.addr h) (onto past rest) (b ∷ live)
  unfolding take_block
  take_block-IsHeap =
      let n = (h.headers b.addr).next in
      let out = set_link prev n h in
      let hs : Headers = set_next b.addr 0 out.headers in
      let h' : Heap = record out { headers = hs } in
      let cut : FreeBlock = record (out.headers b.addr) { next = 0 } in
      let apart = elsewhere b.addr (omega arith) (omega (arith, pulled.0)) in
      let same =
        All-parts (λ c. hs c.addr ≡ h.headers c.addr) rest live
          (Agree-trans h.headers out.headers hs (rest ++ live)
            (set_link-Agree prev n h (rest ++ live) not_prev.2)
            (update-Agree b.addr cut out.headers (rest ++ live) apart.1)) in
      record {
        chain =
            Chain-onto h' past rest n
              (Back-Agree out h' past n refl (update-Agree b.addr cut out.headers past apart.0)
                (set_link-Back h past b.addr n past_low not_prev.0 at.back))
              (Chain-Agree h.headers hs n rest same.0 at.chain);
        sound = Sound-insert (onto past rest) live b (
          pulled.0,
          onto-All (Apart b) past rest live pulled.1,
          onto-Sound past rest live pulled.2,
        );
        sizes = (
          ap FreeBlock.size (update_self b.addr cut out.headers)
              ∙ ap FreeBlock.size (set_link-headers prev n b.addr h not_prev.1)
              ∙ at.size,
          sizes-Agree h.headers hs live same.1 at.sizes,
        );
      }

  module _ (r end : ℕ) (fits : b.addr + 16 ≤ r) (aligned : r % 16 ≡ 0) (left : r + 32 ≤ end)
      (ends : end ≡ b.addr + b.size) where
    abbrev pub front : Block
    front = record { addr = b.addr; size = r - b.addr }

    abbrev pub back_part : Block
    back_part = record { addr = r; size = end - r }

    cut-Sound : Sound (front ∷ back_part ∷ past ++ (rest ++ live))
    cut-Sound =
        let s = pulled in
        Sound-cut b front back_part (past ++ (rest ++ live)) (omega (arith, s.0))
          (omega (arith, s.0)) refl (omega arith) (omega arith) s

    -- The block is cut in two, and the back part takes its place in the list.
    pub split_block-IsHeap :
        IsHeap (split_block prev b.addr r end h) (onto past (back_part ∷ rest)) (front ∷ live)
    unfolding split_block
    split_block-IsHeap =
        let n = (h.headers b.addr).next in
        let cut = cut_headers b.addr r n (sub_u64 r b.addr) (sub_u64 end r) h.headers in
        let mid : Heap = record h { headers = cut } in
        let h' = set_link prev r mid in
        let at_b = elsewhere b.addr (omega arith) (omega (arith, pulled.0)) in
        let at_r = elsewhere r (omega arith) (omega arith) in
        let r_ne = last_addr-ne past r (omega arith) at_r.0 in
        let kept = λ (bs : List Block).
          cut-Agree b.addr r n (sub_u64 r b.addr) (sub_u64 end r) h.headers bs in
        let back_header =
          cut_back b.addr r n (sub_u64 r b.addr) (sub_u64 end r) h.headers (omega arith) in
        let r_same = set_link-headers prev r r mid r_ne in
        let same =
          All-parts (λ c. h'.headers c.addr ≡ h.headers c.addr) rest live
            (Agree-trans h.headers cut h'.headers (rest ++ live) (kept (rest ++ live) at_b.1 at_r.1)
              (set_link-Agree prev r mid (rest ++ live) not_prev.2)) in
        record {
          chain =
              Chain-onto h' past (back_part ∷ rest) r
                (set_link-Back mid past b.addr r past_low not_prev.0
                  (Back-Agree h mid past b.addr refl (kept past at_b.0 at_r.0) at.back))
                (
                  refl,
                  ap FreeBlock.size r_same ∙ back_header.0 ∙ omega (arith, pulled.0),
                  subst (λ p. Chain h'.headers p rest)
                      (sym (ap FreeBlock.next r_same ∙ back_header.1))
                      (Chain-Agree h.headers h'.headers n rest same.0 at.chain),
                );
          sound = Sound-insert (onto past (back_part ∷ rest)) live front (
            cut-Sound.0,
            onto-All (Apart front) past (back_part ∷ rest) live (
                All-insert (Apart front) past (rest ++ live) back_part cut-Sound.1.0 cut-Sound.1.1),
            onto-Sound past (back_part ∷ rest) live
                (Sound-insert past (rest ++ live) back_part cut-Sound.2),
          );
          sizes = (
            ap FreeBlock.size (set_link-headers prev r b.addr mid not_prev.1)
                ∙ cut_front b.addr r n (sub_u64 r b.addr) (sub_u64 end r) h.headers
                ∙ omega (arith, pulled.0),
            sizes-Agree h.headers h'.headers live same.1 at.sizes,
          );
        }
