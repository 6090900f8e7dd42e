-- ===== src/Tests/Host.antt =====
-- The theorems about the host's buffers at concrete inputs.
use wasm_gpu.Prelude.{
  ℕ, List, some, ◌+◌, ◌*◌, ◌≤◌, ◌<◌, ◌≡◌, refl, false, [], ◌∷◌, none, length, slice, overwrite, leb,
  ok, err, ◌>>=◌, index_out_of_bounds, arith,
}
use wasm_gpu.Buffers.{LazyBuffers, host_buffers}
use wasm_gpu.Capability
use wasm_gpu.Capability.{CapabilityStore, resize_ref, get_cap, check}
use wasm_gpu.Capability.Ids.{size}
use wasm_gpu.Capability.Tracks.{Tracks, Tracks-new}
use wasm_gpu.Capability.World
use wasm_gpu.Memory
use wasm_gpu.Memory.Isolation
use wasm_gpu.Globals
use wasm_gpu.Globals.Values
use wasm_gpu.Typed
use wasm_gpu.Typed.{Val, byte_count, get_type, ref, funcref}
use wasm_gpu.Data
use wasm_gpu.Elements
use wasm_gpu.Elements.Segments.{try_get-try_add_element}
use wasm_gpu.Table
use wasm_gpu.Table.Entries

-- A store for 4 bytes, and the one that it was resized to.
abbrev one_store : World.World
one_store = World.add World.initial (Capability.new 4 0)

abbrev two_stores : World.World
two_stores = World.add one_store (resize_ref (Capability.new 4 0).0 8 1)

two_stores_reached : World.Reach two_stores
unfolding Capability.new
two_stores_reached =
    World.after (World.after World.start (World.creates 4 (omega arith)))
      (World.resizes 0 8 (omega arith) refl)

abbrev old_store : CapabilityStore
old_store = (Capability.new 4 0).0

abbrev new_store : CapabilityStore
new_store = (resize_ref old_store 8 1).0

check-size_le-Reach_example : size old_store.id_sizes ≤ size new_store.id_sizes
unfolding Capability.new Capability.resize_ref Capability.check Capability.get_cap
check-size_le-Reach_example =
    World.check-size_le-Reach two_stores 1 0 old_store new_store two_stores_reached refl refl refl

check-resize_ref_example :
    (check (resize_ref new_store 6 two_stores.counter).0 (get_cap new_store)
      ≡ leb (size new_store.id_sizes) 6)
    × (check old_store (get_cap (resize_ref new_store 6 two_stores.counter).0) ≡ false)
check-resize_ref_example =
    World.check-resize_ref two_stores 0 1 6 new_store old_store two_stores_reached refl refl

-- Two memories of one page each.
abbrev one_page : Memory.MemoryType
one_page = record { initial = 1; maximum = none }

abbrev no_memory : Isolation.Run host_buffers
no_memory = Isolation.begin host_buffers 0

abbrev one_memory : Isolation.Run host_buffers
one_memory =
    Isolation.added host_buffers no_memory
      (Memory.add_memory host_buffers no_memory.builder one_page no_memory.counter)

abbrev two_memories : Isolation.Run host_buffers
two_memories =
    Isolation.added host_buffers one_memory
      (Memory.add_memory host_buffers one_memory.builder one_page one_memory.counter)

two_memories_reached : Isolation.Reach host_buffers two_memories
unfolding Memory.new Memory.add_memory Capability.new Capability.resize_ref Capability.next
two_memories_reached =
    Isolation.after
      (Isolation.after (Isolation.start 0 (omega arith)) (Isolation.adds one_page (omega arith)))
      (Isolation.adds one_page (omega arith))

abbrev first_memory : Memory.AbstractMemoryPtr
first_memory = (Memory.add_memory host_buffers no_memory.builder one_page no_memory.counter).0

abbrev second_memory : Memory.AbstractMemoryPtr
second_memory = (Memory.add_memory host_buffers one_memory.builder one_page one_memory.counter).0

try_initialize_issued_example :
    (Memory.try_initialize host_buffers two_memories.builder first_memory (1 ∷ 2 ∷ []) 3 ≡ (
      LazyBuffers.try_write_slice_locking host_buffers two_memories.builder.memory
        (first_memory.ptr + 3)
        (first_memory.ptr + 3 + 2)
        (1 ∷ 2 ∷ [])
      >>= λ m. ok (record (two_memories.builder) { memory = m })))
    × (first_memory.ptr + 3 + 2 ≤ length two_memories.builder.memory)
unfolding Memory.add_memory
try_initialize_issued_example =
    Isolation.try_initialize_issued host_buffers two_memories 1 3 (1 ∷ 2 ∷ []) first_memory
      two_memories_reached refl (omega arith)

-- The builder after a write into the first memory.
abbrev first_written : Memory.MemoryInstanceSetBuilder host_buffers
first_written = record (two_memories.builder) {
  memory = overwrite two_memories.builder.memory (first_memory.ptr + 3) (1 ∷ 2 ∷ []);
}

try_initialize_isolated_example :
    (slice (first_memory.ptr + 3) 2 first_written.memory ≡ 1 ∷ 2 ∷ [])
    × (slice second_memory.ptr second_memory.len first_written.memory
        ≡ slice second_memory.ptr second_memory.len two_memories.builder.memory)
unfolding Memory.new Memory.add_memory Memory.try_initialize Capability.new Capability.resize_ref
    Capability.next Capability.check Capability.get_cap
try_initialize_isolated_example =
    Isolation.try_initialize_isolated host_buffers two_memories 1 0 3 (1 ∷ 2 ∷ []) first_memory
      second_memory first_written two_memories_reached refl refl (λ e. cc) refl

-- A buffer of globals in which a value was pushed, and then room for more was reserved.
abbrev pub no_globals : Values.Run host_buffers
no_globals = Values.begin host_buffers 0

abbrev room : Values.Run host_buffers
room =
    Values.reserved host_buffers no_globals
      (Globals.reserve host_buffers no_globals.builder 4 no_globals.counter)

abbrev pub seven_ptr : Globals.GlobalPtr
seven_ptr = record {
  ptr = 0;
  cap = Capability.get_cap room.builder.cap_set;
  content_type = get_type (Val.i32 7);
}

abbrev seven : Values.Run host_buffers
seven = record {
  builder = record (room.builder) { values = 7 ∷ 0 ∷ 0 ∷ 0 ∷ []; head = 4 };
  counter = room.counter;
  issued = (seven_ptr, Val.i32 7) ∷ [];
}

abbrev pub more_room : Values.Run host_buffers
more_room =
    Values.reserved host_buffers seven (Globals.reserve host_buffers seven.builder 8 seven.counter)

pub more_room_reached : Values.Reach host_buffers more_room
unfolding Globals.new Globals.reserve Globals.try_push Capability.new Capability.resize_ref
    Capability.next Capability.get_cap Typed.get_type Typed.to_bytes
more_room_reached =
    Values.after
      (Values.after (Values.after (Values.start 0 (omega arith)) (Values.reserves 4 (omega arith)))
        (Values.pushes (Val.i32 7) (omega arith) refl))
      (Values.reserves 8 (omega arith))

try_get_pushed_example :
    (Globals.try_get_mutable host_buffers more_room.builder seven_ptr ≡ (
      LazyBuffers.try_read_slice_locking host_buffers more_room.builder.values 0 4 >>= λ _.
      ok (Val.i32 7)))
    × (Globals.try_get_immutable host_buffers more_room.builder seven_ptr ≡ (
        LazyBuffers.try_read_slice_locking host_buffers more_room.builder.values 0 4 >>= λ _.
        ok (Val.i32 7)))
unfolding Typed.byte_count Typed.get_type
try_get_pushed_example =
    Values.try_get_pushed host_buffers more_room 0 seven_ptr (Val.i32 7) more_room_reached refl

-- A buffer of data with room for four bytes, and the segments put into it.
abbrev data_room : Data.DataInstance host_buffers
data_room = record { datas = 0 ∷ 0 ∷ 0 ∷ 0 ∷ []; cap_set = (Capability.new 4 0).0; head = 0 }

abbrev data_ptr : Data.DataPtr
data_ptr = record { ptr = 0; cap = Capability.get_cap data_room.cap_set; len = 2 }

abbrev data_first : Data.DataInstance host_buffers
data_first = record (data_room) { datas = 1 ∷ 2 ∷ 0 ∷ 0 ∷ [] }

data_room_tracked : Tracks (Capability.new 4 0).1 data_room.cap_set 4
data_room_tracked = Tracks-new 0 4 (omega arith)

-- A table of four entries of four bytes each.
abbrev four_entries : Table.TableType
four_entries = record { element_type = funcref; initial = 4; maximum = none }

abbrev no_tables : Table.TableInstanceSetBuilder host_buffers
no_tables = (Table.new host_buffers 0).0

no_tables_tracked : Tracks 1 no_tables.cap_set 0
unfolding Table.new Capability.new
no_tables_tracked = Tracks-new 0 0 (omega arith)

try_initialize-add_table_example :
    let (p, self, _) = Table.add_table host_buffers no_tables four_entries 1 in
    (1 + 4 * 1 ≤ 4
      → (Table.try_initialize host_buffers self p (1 ∷ 0 ∷ 0 ∷ 0 ∷ []) 1 ≡ (
          LazyBuffers.try_write_slice_locking host_buffers self.tables
            (p.ptr + 1)
            (p.ptr + 1 + 4)
            (1 ∷ 0 ∷ 0 ∷ 0 ∷ [])
          >>= λ m. ok (record self { tables = m })))
        × (p.ptr + 1 + 4 ≤ length self.tables))
    × (4 < 1 + 4 * 1
        → Table.try_initialize host_buffers self p (1 ∷ 0 ∷ 0 ∷ 0 ∷ []) 1 ≡ err index_out_of_bounds)
unfolding Table.new Typed.byte_count
try_initialize-add_table_example =
    Entries.try_initialize-add_table host_buffers no_tables four_entries 1 1 1 (1 ∷ 0 ∷ 0 ∷ 0 ∷ [])
      (omega arith) no_tables_tracked (omega arith)

-- A buffer of elements with room for two references, and the segments put into it.
abbrev element_room : Elements.ElementInstance host_buffers
element_room = record {
  references = 0 ∷ 0 ∷ 0 ∷ 0 ∷ 0 ∷ 0 ∷ 0 ∷ 0 ∷ [];
  cap_set = (Capability.new 8 0).0;
  head = 0;
}

abbrev element_ptr : ℕ → Elements.ElementPtr
element_ptr start = record {
  ptr = start;
  cap = Capability.get_cap element_room.cap_set;
  ty = funcref;
  len = 1;
}

abbrev element_first : Elements.ElementInstance host_buffers
element_first = record (element_room) { references = 5 ∷ 0 ∷ 0 ∷ 0 ∷ 0 ∷ 0 ∷ 0 ∷ 0 ∷ []; head = 4 }

abbrev element_second : Elements.ElementInstance host_buffers
element_second = record (element_room) {
  references = 5 ∷ 0 ∷ 0 ∷ 0 ∷ 255 ∷ 255 ∷ 255 ∷ 255 ∷ [];
  head = 8;
}

try_get-try_add_element_example :
    (bytes : List ℕ) × (Elements.element_bytes (some 5 ∷ []) ≡ ok bytes)
    × (Elements.try_get host_buffers element_second (element_ptr 0) ≡ (
        LazyBuffers.try_read_slice_locking host_buffers element_second.references 0 4 >>= λ _.
        ok bytes))
unfolding Elements.try_add_element Elements.element_bytes Elements.entry_bytes Typed.byte_count
try_get-try_add_element_example =
    try_get-try_add_element host_buffers element_room element_first element_second funcref funcref
      (some 5 ∷ []) (none ∷ []) (element_ptr 0) (element_ptr 4) (Capability.new 8 0).1
      (Tracks-new 0 8 (omega arith)) refl refl
