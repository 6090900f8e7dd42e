-- ===== src/Initialization/Segments.antt =====
-- wasm-gpu/src/module.rs (`try_initialize_elements`, `try_initialize_datas`): the segments of a module
-- are evaluated and appended to the buffers of segments. `RefType::is_func_ref` is a parameter.
use wasm_gpu.Prelude.{
  ℕ, ◌*◌, Bool, true, false, List, [], ◌∷◌, map, length, Option, Outcome, ok, err, ◌>>=◌, try_map,
  malformed,
}
use wasm_gpu.Buffers.{LazyBuffers}
use wasm_gpu.Typed.{Val, func_ref, extern_ref, RefType, byte_count, ref, funcref}
use wasm_gpu.Constexpr.{Operator, Environment, interpret_constexpr}
use wasm_gpu.Elements
use wasm_gpu.Elements.{ElementInstance, ElementPtr}
use wasm_gpu.Data
use wasm_gpu.Data.{DataInstance, DataPtr}
use wasm_gpu.Parsing.{ParsedElement, ParsedData}
use wasm_gpu.Initialization.{sum}

-- The match on an evaluated item and whether the segment holds functions.
unfoldable pub item_of : Bool → Val → Outcome (Option ℕ)
item_of true (func_ref fr) = ok fr
item_of false (extern_ref er) = ok er
item_of _ _ = err malformed

module _ (B : LazyBuffers) (is_func_ref : RefType → Bool) where
  unfoldable pub element_item : Environment B → RefType → List Operator → Outcome (Option ℕ)
  unfolding interpret_constexpr item_of
  element_item env ty expr = interpret_constexpr B env expr >>= item_of (is_func_ref ty)

  unfoldable pub add_elements :
      Environment B
      → List ParsedElement
      → ElementInstance B
      → Outcome (List ElementPtr × ElementInstance B)
  unfolding element_item Elements.try_add_element
  add_elements env [] elements = ok ([], elements)
  add_elements env (element ∷ rest) elements = do
    vals ← try_map (element_item env element.ty) element.items
    added ← Elements.try_add_element B elements element.ty vals
    more ← add_elements env rest added.1
    ok (added.0 ∷ more.0, more.1)

  unfoldable pub try_initialize_elements :
      Environment B
      → List ParsedElement
      → ElementInstance B
      → ℕ
      → Outcome (List ElementPtr × ElementInstance B × ℕ)
  unfolding add_elements Elements.reserve byte_count
  try_initialize_elements env parsed elements counter =
      let items = sum (map (λ (e : ParsedElement). length e.items) parsed) in
      let (reserved, counter') =
        Elements.reserve B elements (byte_count (ref funcref) * items) counter in
      add_elements env parsed reserved >>= λ r. ok (r.0, r.1, counter')

-- The bytes of all data segments together.
unfoldable pub reserved_size : List ParsedData → ℕ
reserved_size parsed = sum (map (λ (e : ParsedData). length e.bytes) parsed)

module _ (B : LazyBuffers) where
  unfoldable pub add_datas :
      List ParsedData → DataInstance B → Outcome (List DataPtr × DataInstance B)
  unfolding Data.try_add_data
  add_datas [] datas = ok ([], datas)
  add_datas (segment ∷ rest) datas = do
    added ← Data.try_add_data B datas segment.bytes
    more ← add_datas rest added.1
    ok (added.0 ∷ more.0, more.1)

  unfoldable pub try_initialize_datas :
      List ParsedData → DataInstance B → ℕ → Outcome (List DataPtr × DataInstance B × ℕ)
  unfolding add_datas Data.reserve reserved_size
  try_initialize_datas parsed datas counter =
      let (reserved, counter') = Data.reserve B datas (reserved_size parsed) counter in
      add_datas parsed reserved >>= λ r. ok (r.0, r.1, counter')
