-- ===== src/Parsing.antt =====
-- wasm-gpu/src/module/parsing.rs: the sections of a parsed module. Names are the native strings; the
-- operators of function bodies are a parameter.
use wasm_gpu.Prelude.{ℕ, List, Option}
use Prim.Native.String.{String}
use wasm_gpu.Typed.{RefType, ValType}
use wasm_gpu.Globals.{GlobalType}
use wasm_gpu.Memory.{MemoryType}
use wasm_gpu.Table.{TableType}
use wasm_gpu.Functions.{FuncType}
use wasm_gpu.Constexpr.{Operator}

pub data ImportTypeRef : Type 0 where
  func : ℕ → ImportTypeRef
  table : TableType → ImportTypeRef
  memory : MemoryType → ImportTypeRef
  global : GlobalType → ImportTypeRef

pub record Global : Type 0 where
  pub ty : GlobalType
  pub initializer : List Operator

pub data ModuleExport : Type 0 where
  func table memory global : ℕ → ModuleExport

pub record ParsedFunc (O : Type 0) : Type 0 where
  pub type_id : ℕ
  pub locals : List (ℕ × ValType)
  pub operators : List O

pub data ParsedElementKind : Type 0 where
  passive declared : ParsedElementKind
  active : Option ℕ → List Operator → ParsedElementKind

pub record ParsedElement : Type 0 where
  pub kind : ParsedElementKind
  pub items : List (List Operator)
  pub ty : RefType

pub data ParsedDataKind : Type 0 where
  passive : ParsedDataKind
  active : ℕ → List Operator → ParsedDataKind

pub record ParsedData : Type 0 where
  pub kind : ParsedDataKind
  pub bytes : List ℕ

pub data ParsedTableInit : Type 0 where
  ref_null : ParsedTableInit
  expr : List Operator → ParsedTableInit

pub record ParsedTable : Type 0 where
  pub ty : TableType
  pub init : ParsedTableInit

pub record ParsedModule (O : Type 0) : Type 0 where
  pub types : List FuncType
  pub imports : List (String × String × ImportTypeRef)
  pub tables : List ParsedTable
  pub memories : List MemoryType
  pub globals : List Global
  pub exports : List (String × ModuleExport)
  pub start_func : Option ℕ
  pub elements : List ParsedElement
  pub datas : List ParsedData
  pub functions : List (ParsedFunc O)
