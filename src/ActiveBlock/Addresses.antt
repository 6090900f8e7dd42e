-- ===== src/ActiveBlock/Addresses.antt =====
-- active_block.rs (`disjoint_memory_address` and the functions that call it): the address that the emitted
-- expressions compute.
use wasm_gpu.Prelude.{ℕ, suc, if◌then◌else◌, ◌*◌, refl, Bool, true, false, List, ◌∷◌}
use wasm_gpu.Access.{memory_stride_words}
use wasm_gpu.Naga.{
  Expression, literal, u32_literal, load, binary, global_variable, add_op, multiply_op, divide_op,
  modulo_op, BlockContext, append_expr,
}
use wasm_gpu.Naga.Machine.{Gpu, Machine}
use wasm_gpu.Naga.Emission.{Within}
use wasm_gpu.ActiveBlock.{
  BodyData, invocations_count, instance_id, disjoint_memory_address, access_address,
}
use wasm_gpu.ActiveBlock.Direct.{moved_address, shared_address}
use wasm_gpu.ActiveBlock.Running.{Running, append-Running, append_static, forget, Within-before}
use wasm_gpu.ActiveBlock.Statements.{Known, append_binary, append_load_global}

Within-disjoint :
    (arena : List Expression) (ctx : BlockContext) (address : ℕ)
    → Within arena (disjoint_memory_address ctx address).1.expressions
    → Within arena ctx.expressions
unfolding disjoint_memory_address
Within-disjoint arena ctx address within = Within-before arena _ _ (
    Within-before arena _ _ (
      Within-before arena _ _ (
        Within-before arena _ _ (
          Within-before arena _ _ (
            Within-before arena _ _ (
              Within-before arena _ _ (
                Within-before arena _ _ (
                  Within-before arena _ _
                    (Within-before arena _ _ (Within-before arena _ _ within))))))))))

Within-moved :
    (arena : List Expression) (disjoint : Bool) (ctx : BlockContext) (address : ℕ)
    → Within arena
        (if disjoint then disjoint_memory_address ctx address else (address, ctx)).1.expressions
    → Within arena ctx.expressions
Within-moved arena true ctx address within = Within-disjoint arena ctx address within
Within-moved arena false ctx address within = within

pub Within-access_address :
    (arena : List Expression) (body : BodyData) (ctx : BlockContext) (address offset : ℕ)
    → Within arena (access_address body ctx address offset).1.expressions
    → Within arena ctx.expressions
unfolding access_address
Within-access_address arena body ctx address offset within =
    let c1 = append_expr ctx (literal (u32_literal offset)) in
    let c2 = append_expr c1.1 (binary add_op address c1.0) in
    Within-before arena _ _
      (Within-before arena _ _ (Within-moved arena body.disjoint_memory c2.1 c2.0 within))

module _ {V W : Type 0} (gpu : Gpu V W) (arena : List Expression) (fuel : ℕ)
    (start : Machine V W) where
  disjoint_memory_address-Running :
      (ctx : BlockContext) (address : ℕ) (known : List (ℕ × V)) (vars : ℕ → V) (w : W) (va : V)
      → Running gpu arena fuel start ctx ((address, va) ∷ known) vars w
      → Within arena (disjoint_memory_address ctx address).1.expressions
      → let stride = gpu.literal_value (u32_literal (memory_stride_words * 4)) in
        Running gpu arena fuel start
          (disjoint_memory_address ctx address).1
          ((
            (disjoint_memory_address ctx address).0,
            gpu.operate add_op
                (gpu.operate multiply_op
                  (gpu.operate divide_op va stride)
                  (gpu.read invocations_count w))
                (gpu.operate add_op
                  (gpu.operate multiply_op stride (gpu.read instance_id w))
                  (gpu.operate modulo_op va stride)),
          )
            ∷ known)
          vars
          w
  unfolding disjoint_memory_address
  disjoint_memory_address-Running ctx address known vars w va r within =
      let e1 = literal (u32_literal (memory_stride_words * 4)) in
      let c1 = append_expr ctx e1 in
      let e2 = global_variable invocations_count in
      let c2 = append_expr c1.1 e2 in
      let e3 = load c2.0 in
      let c3 = append_expr c2.1 e3 in
      let e4 = global_variable instance_id in
      let c4 = append_expr c3.1 e4 in
      let e5 = load c4.0 in
      let c5 = append_expr c4.1 e5 in
      let e6 = binary divide_op address c1.0 in
      let c6 = append_expr c5.1 e6 in
      let e7 = binary multiply_op c6.0 c3.0 in
      let c7 = append_expr c6.1 e7 in
      let e8 = binary multiply_op c1.0 c5.0 in
      let c8 = append_expr c7.1 e8 in
      let e9 = binary modulo_op address c1.0 in
      let c9 = append_expr c8.1 e9 in
      let e10 = binary add_op c8.0 c9.0 in
      let c10 = append_expr c9.1 e10 in
      let e11 = binary add_op c7.0 c10.0 in
      let w10 = Within-before arena c10.1 e11 within in
      let w9 = Within-before arena c9.1 e10 w10 in
      let w8 = Within-before arena c8.1 e9 w9 in
      let w7 = Within-before arena c7.1 e8 w8 in
      let w6 = Within-before arena c6.1 e7 w7 in
      let w5 = Within-before arena c5.1 e6 w6 in
      let w4 = Within-before arena c4.1 e5 w5 in
      let w3 = Within-before arena c3.1 e4 w4 in
      let w2 = Within-before arena c2.1 e3 w3 in
      let w1 = Within-before arena c1.1 e2 w2 in
      let r1 = append_static gpu arena fuel start ctx e1 _ vars w _ refl r w1 in
      let (found2, r2, _) = append-Running gpu arena fuel start c1.1 e2 _ vars w r1 w2 in
      let r3 =
        append_load_global gpu arena fuel start c2.1 c2.0 invocations_count _ vars w found2 r2 w3 in
      let (found4, r4, _) = append-Running gpu arena fuel start c3.1 e4 _ vars w r3 w4 in
      let r5 =
        append_load_global gpu arena fuel start c4.1 c4.0 instance_id _ vars w found4 r4 w5 in
      let r6 =
        append_binary gpu arena fuel start c5.1 divide_op address c1.0 _ vars w _ _ (3, refl)
          (2, refl) r5 w6 in
      let r7 =
        append_binary gpu arena fuel start c6.1 multiply_op c6.0 c3.0 _ vars w _ _ (0, refl)
          (2, refl) r6 w7 in
      let r8 =
        append_binary gpu arena fuel start c7.1 multiply_op c1.0 c5.0 _ vars w _ _ (4, refl)
          (2, refl) r7 w8 in
      let r9 =
        append_binary gpu arena fuel start c8.1 modulo_op address c1.0 _ vars w _ _ (6, refl)
          (5, refl) r8 w9 in
      let r10 =
        append_binary gpu arena fuel start c9.1 add_op c8.0 c9.0 _ vars w _ _ (1, refl) (0, refl) r9
          w10 in
      let r11 =
        append_binary gpu arena fuel start c10.1 add_op c7.0 c10.0 _ vars w _ _ (3, refl) (0, refl)
          r10 within in
      forget gpu arena fuel start _ _ _ vars w r11 (r11.knows.0, r11.knows.1.1.1.1.1.1.1.1.1.1)

  -- The address moved into the invocation's own memory, or not.
  moved-Running :
      (disjoint : Bool) (ctx : BlockContext) (address : ℕ) (known : List (ℕ × V)) (vars : ℕ → V)
      (w : W) (va : V)
      → Running gpu arena fuel start ctx ((address, va) ∷ known) vars w
      → let moved = if disjoint then disjoint_memory_address ctx address else (address, ctx) in
        Within arena moved.1.expressions
        → Running gpu arena fuel start moved.1
            ((moved.0, moved_address gpu disjoint w va) ∷ known)
            vars
            w
  moved-Running true ctx address known vars w va r within =
      disjoint_memory_address-Running ctx address known vars w va r within
  moved-Running false ctx address known vars w va r within = r

  -- The address of an access: the popped one and the offset, moved into the invocation's own memory
  -- where memories are disjoint.
  pub access_address-Running :
      (body : BodyData) (ctx : BlockContext) (address offset : ℕ) (known : List (ℕ × V))
      (vars : ℕ → V) (w : W) (va : V)
      → Known gpu arena fuel start known address va
      → Running gpu arena fuel start ctx known vars w
      → Within arena (access_address body ctx address offset).1.expressions
      → Running gpu arena fuel start
          (access_address body ctx address offset).1
          ((
            (access_address body ctx address offset).0,
            shared_address gpu body.disjoint_memory w va offset,
          )
            ∷ known)
          vars
          w
  unfolding access_address
  access_address-Running body ctx address offset known vars w va (i, k) r within =
      let e1 = literal (u32_literal offset) in
      let c1 = append_expr ctx e1 in
      let e2 = binary add_op address c1.0 in
      let c2 = append_expr c1.1 e2 in
      let w2 = Within-moved arena body.disjoint_memory c2.1 c2.0 within in
      let w1 = Within-before arena c1.1 e2 w2 in
      let r1 = append_static gpu arena fuel start ctx e1 _ vars w _ refl r w1 in
      let r2 =
        append_binary gpu arena fuel start c1.1 add_op address c1.0 _ vars w _ _ (suc i, k)
          (0, refl) r1 w2 in
      let r2' : Running gpu arena fuel start c2.1 ((c2.0, _) ∷ known) vars w =
        forget gpu arena fuel start c2.1 _ _ vars w r2 (r2.knows.0, r2.knows.1.1) in
      moved-Running body.disjoint_memory c2.1 c2.0 known vars w _ r2' within
