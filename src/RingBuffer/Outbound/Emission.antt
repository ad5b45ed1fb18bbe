-- ===== src/RingBuffer/Outbound/Emission.antt =====
-- What an operation adds to the window: chunks with consecutive identifiers, each in a slot that was
-- empty. The bytes that are not in a chunk yet are held in the pending chunk and the write buffer.
use aurelia.Prelude.{
  ℕ, suc, ◌+◌, ◌≤◌, ◌<◌, ◌≡◌, refl, sym, ap, ◌∙◌, Bool, true, Option, none, some, List, [], ◌∷◌,
  ◌++◌, append_assoc, is_some, length, get_elem?, length-set,
}
use aurelia.RingBuffer.Outbound.{OutboundChunks, empty, count_live, as_usize, enqueue_chunk, place}
use aurelia.RingBuffer.Outbound.Slots.{enqueue_chunk-place, count_live-set}

-- The bytes of a chunk, and whether it is the last one.
abbrev pub Chunk : Type 0
Chunk = List ℕ × Bool

abbrev pub bytes_of : List Chunk → List ℕ
bytes_of [] = []
bytes_of ((bytes, last) ∷ cs) = bytes ++ bytes_of cs

abbrev pub opt_bytes : Option (List ℕ) → List ℕ
opt_bytes none = []
opt_bytes (some bytes) = bytes

abbrev pub held : OutboundChunks → List ℕ
held s = opt_bytes s.pending_full ++ s.write_buf

pub record HasRoom (s : OutboundChunks) : Type 0 where
  pub size : length s.slots ≡ s.window_size
  pub room : count_live s.slots + as_usize (is_some s.pending_full) ≤ s.window_size

-- Only the buffers differ.
pub record SameWindow (a b : OutboundChunks) : Type 0 where
  pub chunk_size : b.chunk_size ≡ a.chunk_size
  pub window_size : b.window_size ≡ a.window_size
  pub next_chunk_id : b.next_chunk_id ≡ a.next_chunk_id
  pub slots : b.slots ≡ a.slots
  pub chunk_index : b.chunk_index ≡ a.chunk_index
  pub ack_map : b.ack_map ≡ a.ack_map
  pub inflight : b.inflight ≡ a.inflight

-- `b` comes from `a` by putting the chunks into empty slots of the window, in this order, and by
-- changes to the buffers.
pub data Emits (a : OutboundChunks) : List Chunk → OutboundChunks → Type 0 where
  nothing : {b : OutboundChunks} → SameWindow a b → Emits a [] b
  more :
      {before cs : List Chunk} {m b : OutboundChunks} (chunk : Chunk) (index : ℕ)
      → Emits a before m
      → get_elem? m.slots index ≡ some empty
      → SameWindow (place m chunk.0 chunk.1 index) b
      → cs ≡ before ++ chunk ∷ []
      → Emits a cs b

pub SameWindow-refl : (a : OutboundChunks) → SameWindow a a
SameWindow-refl a = record {
  chunk_size = refl;
  window_size = refl;
  next_chunk_id = refl;
  slots = refl;
  chunk_index = refl;
  ack_map = refl;
  inflight = refl;
}

-- An update of the buffers.
pub SameWindow-buffers :
    (a : OutboundChunks) (buf : List ℕ) (pending : Option (List ℕ)) (made : Bool)
    → SameWindow a (record a { write_buf = buf; pending_full = pending; created_any = made })
SameWindow-buffers a buf pending made = record {
  chunk_size = refl;
  window_size = refl;
  next_chunk_id = refl;
  slots = refl;
  chunk_index = refl;
  ack_map = refl;
  inflight = refl;
}

pub SameWindow-trans : {a b c : OutboundChunks} → SameWindow a b → SameWindow b c → SameWindow a c
SameWindow-trans p q = record {
  chunk_size = q.chunk_size ∙ p.chunk_size;
  window_size = q.window_size ∙ p.window_size;
  next_chunk_id = q.next_chunk_id ∙ p.next_chunk_id;
  slots = q.slots ∙ p.slots;
  chunk_index = q.chunk_index ∙ p.chunk_index;
  ack_map = q.ack_map ∙ p.ack_map;
  inflight = q.inflight ∙ p.inflight;
}

pub Emits-buffers :
    {a b c : OutboundChunks} {cs : List Chunk} → Emits a cs b → SameWindow b c → Emits a cs c
Emits-buffers (nothing w) q = nothing (SameWindow-trans w q)
Emits-buffers (more chunk index r e w p) q = more chunk index r e (SameWindow-trans w q) p

pub bytes_of-append : (cs ds : List Chunk) → bytes_of (cs ++ ds) ≡ bytes_of cs ++ bytes_of ds
bytes_of-append [] ds = refl
bytes_of-append ((b, l) ∷ cs) ds =
    ap (◌++◌ b) (bytes_of-append cs ds) ∙ sym (append_assoc b (bytes_of cs) (bytes_of ds))

-- One more chunk, where the window has room for it.
pub Emits-enqueue :
    (a m : OutboundChunks) (cs : List Chunk) (bytes : List ℕ) (last : Bool)
    → Emits a cs m
    → length m.slots ≡ m.window_size
    → count_live m.slots < m.window_size
    → let b = enqueue_chunk m bytes last in
      Emits a (cs ++ (bytes, last) ∷ []) b
      × (b.write_buf ≡ m.write_buf)
      × (b.pending_full ≡ m.pending_full)
      × (b.created_any ≡ true)
      × (b.chunk_size ≡ m.chunk_size)
      × (b.window_size ≡ m.window_size)
      × (length b.slots ≡ b.window_size)
      × (count_live b.slots ≡ suc (count_live m.slots))
Emits-enqueue a m cs bytes last r size room =
    let (index, free, e) = enqueue_chunk-place m bytes last size room in
    rw e (
      unfold place in
      (
        more (bytes, last) index r free (unfold place in SameWindow-refl _) refl,
        refl,
        refl,
        refl,
        refl,
        refl,
        length-set m.slots index _ ∙ size,
        count_live-set m.slots index _ free refl,
      ))
