-- ===== src/ControlFlow/Skipping.antt =====
-- active_block.rs (`eat_to_end`): what is skipped behind an unconditional branch.
use wasm_gpu.Prelude.{ℕ, suc, ◌≡◌, refl, ap, ◌∙◌, List, [], ◌∷◌, ◌++◌, append_assoc}
use wasm_gpu.Mvp.{MvpOperator, SignExtensionOperator}
use wasm_gpu.ControlFlow.{
  Operator, block, if, loop, els, end, br, br_if, leave, mvp, sign_extension, other,
  ParsedBlockType, eat_at, eat_to_end,
}

pub data Opening : Type 0 where
  open_block open_if open_loop : Opening

abbrev pub opening : Opening → ParsedBlockType → Operator
opening open_block ty = block ty
opening open_if ty = if ty
opening open_loop ty = loop ty

-- Code as it is nested, with every kind of operator: the body of a block, loop or conditional, which an `else` may divide, is closed
-- before the code that follows it.
pub data Code : Type 0 where
  done : Code
  branch branch_if work : ℕ → Code → Code
  divide return call call_indirect br_table simd threads : Code → Code
  perform : MvpOperator → Code → Code
  extend : SignExtensionOperator → Code → Code
  nest : Opening → ParsedBlockType → Code → Code → Code

-- The operators of nested code, with their `end`s.
abbrev pub flatten : Code → List Operator
flatten done = []
flatten (branch n code) = br n ∷ flatten code
flatten (branch_if n code) = br_if n ∷ flatten code
flatten (work n code) = other n ∷ flatten code
flatten (divide code) = els ∷ flatten code
flatten (return code) = leave ∷ flatten code
flatten (call code) = Operator.call ∷ flatten code
flatten (call_indirect code) = Operator.call_indirect ∷ flatten code
flatten (br_table code) = Operator.br_table ∷ flatten code
flatten (simd code) = Operator.simd ∷ flatten code
flatten (threads code) = Operator.threads ∷ flatten code
flatten (perform op code) = mvp op ∷ flatten code
flatten (extend op code) = sign_extension op ∷ flatten code
flatten (nest o ty body code) = opening o ty ∷ (flatten body ++ (end ∷ flatten code))

-- A nested body is skipped with its `end` when the body and what follows are.
eat_nested :
    (depth : ℕ) (body code rest : List Operator)
    → eat_at (body ++ (end ∷ (code ++ rest))) (suc depth)
      ≡ eat_at (end ∷ (code ++ rest)) (suc depth)
    → eat_at (code ++ rest) depth ≡ eat_at rest depth
    → eat_at ((body ++ (end ∷ code)) ++ rest) (suc depth) ≡ eat_at rest depth
unfolding eat_at
eat_nested depth body code rest h k =
    ap (λ l. eat_at l (suc depth)) (append_assoc body (end ∷ code) rest) ∙ h ∙ k

pub eat_at-flatten :
    (depth : ℕ) (code : Code) (rest : List Operator)
    → eat_at (flatten code ++ rest) depth ≡ eat_at rest depth
unfolding eat_at
eat_at-flatten depth done rest = refl
eat_at-flatten depth (branch n code) rest = eat_at-flatten depth code rest
eat_at-flatten depth (branch_if n code) rest = eat_at-flatten depth code rest
eat_at-flatten depth (work n code) rest = eat_at-flatten depth code rest
eat_at-flatten depth (divide code) rest = eat_at-flatten depth code rest
eat_at-flatten depth (return code) rest = eat_at-flatten depth code rest
eat_at-flatten depth (call code) rest = eat_at-flatten depth code rest
eat_at-flatten depth (call_indirect code) rest = eat_at-flatten depth code rest
eat_at-flatten depth (br_table code) rest = eat_at-flatten depth code rest
eat_at-flatten depth (simd code) rest = eat_at-flatten depth code rest
eat_at-flatten depth (threads code) rest = eat_at-flatten depth code rest
eat_at-flatten depth (perform op code) rest = eat_at-flatten depth code rest
eat_at-flatten depth (extend op code) rest = eat_at-flatten depth code rest
eat_at-flatten depth (nest open_block ty body code) rest =
    eat_nested depth (flatten body) (flatten code) rest
      (eat_at-flatten (suc depth) body (end ∷ (flatten code ++ rest)))
      (eat_at-flatten depth code rest)
eat_at-flatten depth (nest open_if ty body code) rest =
    eat_nested depth (flatten body) (flatten code) rest
      (eat_at-flatten (suc depth) body (end ∷ (flatten code ++ rest)))
      (eat_at-flatten depth code rest)
eat_at-flatten depth (nest open_loop ty body code) rest =
    eat_nested depth (flatten body) (flatten code) rest
      (eat_at-flatten (suc depth) body (end ∷ (flatten code ++ rest)))
      (eat_at-flatten depth code rest)

-- From anywhere in nested code, the operators up to the `end` that closes it are skipped, and the `end`
-- is left: blocks that the code opens are skipped with theirs. An `else` does not end the skipping, so a
-- branch in the first arm of a conditional takes the second arm with it: what is left behind the branch
-- is the `end` of the conditional, and not its `else`.
pub eat_to_end_lem :
    (first second : Code) (rest : List Operator)
    → (eat_to_end (flatten first ++ (end ∷ rest)) ≡ end ∷ rest)
      × (eat_to_end (flatten first ++ (els ∷ (flatten second ++ (end ∷ rest)))) ≡ end ∷ rest)
unfolding eat_to_end eat_at
eat_to_end_lem first second rest = (
  eat_at-flatten 0 first (end ∷ rest),
  eat_at-flatten 0 first (els ∷ (flatten second ++ (end ∷ rest)))
      ∙ eat_at-flatten 0 second (end ∷ rest),
)
