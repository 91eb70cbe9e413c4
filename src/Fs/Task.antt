-- ===== src/Fs/Task.antt =====
-- The file system service of src/fs.go: `fsTask` serves requests one at a time, and answers as the
-- store of `Fs.Store` does.
use gooos.Common.{
  ℕ, suc, ◌≡◌, fun_ext, refl, ap, ap₂, ◌∙◌, Bool, true, Option, none, List, [], ◌∷◌, if◌then◌else◌,
  arith,
}
use Prim.Native.String.{String}
use text.Mathlib.Text.{◌==◌ as str_eq}
use text.Mathlib.TextEquality.{eq_iff}
use gooos.Fs.{FileEntry, FileSystem, create, write, read, used_names, list, delete}
use gooos.Fs.Store.{Store, is_some}
use gooos.Fs.Store
use gooos.Fs.Lookup.{lookup, Unique}
use gooos.Fs.Refine.{IsValid, abs, create_refines, write_refines, read_refines, delete_refines}

-- `fsOp`
pub data FsOp : Type 0 where
  op_create op_write op_read op_list op_delete : FsOp

-- `fsRequest` without its response and its event
pub record FsRequest : Type 0 where
  pub op : FsOp
  pub name : String
  pub content : List ℕ

-- `fsResponse`; `content` is the field `data`, with `nil` as `none`
pub record FsResponse : Type 0 where
  pub ok : Bool
  pub content : Option (List ℕ)
  pub names : List String

-- the `switch` of `fsTask`
dispatch : FsOp → String → List ℕ → FileSystem → FileSystem × FsResponse
dispatch op_create name content fs =
    let (fs', ok) = create name fs in (fs', record { ok = ok; content = none; names = [] })
dispatch op_write name content fs =
    let (fs', ok) = write name content fs in (fs', record { ok = ok; content = none; names = [] })
dispatch op_read name content fs =
    let found = read name fs in (fs, record { ok = is_some found; content = found; names = [] })
dispatch op_list name content fs = (fs, record { ok = true; content = none; names = list fs })
dispatch op_delete name content fs =
    let (fs', ok) = delete name fs in (fs', record { ok = ok; content = none; names = [] })

-- one round of the loop of `fsTask`
unfoldable pub serve : FsRequest → FileSystem → FileSystem × FsResponse
unfolding dispatch
serve r fs = dispatch r.op r.name r.content fs

-- The requests that `fsTask` takes off its queue, in order.
unfoldable pub serve_all : List FsRequest → FileSystem → FileSystem × List FsResponse
unfolding serve
serve_all [] fs = (fs, [])
serve_all (r ∷ rs) fs =
    let (fs', a) = serve r fs in let (fs'', rest) = serve_all rs fs' in (fs'', a ∷ rest)

-- how often a name stands in a list
abbrev pub count : String → List String → ℕ
count n [] = 0
count n (m ∷ ms) = let rest = count n ms in if str_eq m n then suc rest else rest

count_absent : (n : String) (fs : List FileEntry) → lookup n fs ≡ none → count n (used_names fs) ≡ 0
unfolding used_names lookup
count_absent n [] e = refl
count_absent n (f ∷ fs) e = ground (arith, count_absent n fs)

count-used_names :
    (n : String) (fs : List FileEntry)
    → Unique fs
    → count n (used_names fs) ≡ (if is_some (lookup n fs) then 1 else 0)
unfolding used_names lookup
count-used_names n [] u = refl
count-used_names n (f ∷ fs) u =
    ground (arith, count-used_names n fs u.1, count_absent n fs, eq_iff f.name n)

-- `fsList` of a valid table names each file of the store once, and nothing else.
pub count-list :
    (n : String) (fs : FileSystem)
    → IsValid fs
    → count n (list fs) ≡ (if is_some ((abs fs).file n) then 1 else 0)
unfolding list abs
count-list n fs v = count-used_names n fs.files v.unique

-- What a caller of the store sees of one request: of the names, how often each stands among them.
abbrev pub Answer : Type 0
Answer = Bool × Option (List ℕ) × (String → ℕ)

abbrev pub answer : FsResponse → Answer
answer a = (a.ok, a.content, λ n. count n a.names)

abbrev pub answers : List FsResponse → List Answer
answers [] = []
answers (a ∷ rest) = answer a ∷ answers rest

-- the names of a store: each file once
abbrev pub each_once : Store → String → ℕ
each_once s n = if is_some (s.file n) then 1 else 0

store_dispatch : FsOp → String → List ℕ → Store → Store × Answer
store_dispatch op_create name content s =
    let (s', ok) = Store.create name s in (s', (ok, none, λ n. 0))
store_dispatch op_write name content s =
    let (s', ok) = Store.write name content s in (s', (ok, none, λ n. 0))
store_dispatch op_read name content s = (s, (is_some (s.file name), s.file name, λ n. 0))
store_dispatch op_list name content s = (s, (true, none, each_once s))
store_dispatch op_delete name content s =
    let (s', ok) = Store.delete name s in (s', (ok, none, λ n. 0))

pub store_serve : FsRequest → Store → Store × Answer
unfolding store_dispatch
store_serve r s = store_dispatch r.op r.name r.content s

pub store_serve_all : List FsRequest → Store → Store × List Answer
store_serve_all [] s = (s, [])
store_serve_all (r ∷ rs) s =
    let (s', a) = store_serve r s in let (s'', rest) = store_serve_all rs s' in (s'', a ∷ rest)

lift :
    {fs : FileSystem} {s t : Store} {a b : Bool}
    → IsValid fs × (◌≡◌ {A = Store × Bool} (s, a) (t, b))
    → IsValid fs × (◌≡◌ {A = Store × Answer} (s, (a, none, λ n. 0)) (t, (b, none, λ n. 0)))
lift h = (h.0, ap (λ p. (p.0, (p.1, none, λ n. 0))) h.1)

dispatch_refines :
    (op : FsOp) (name : String) (d : List ℕ) (fs : FileSystem)
    → IsValid fs
    → let (fs', a) = dispatch op name d fs in
      IsValid fs'
      × (◌≡◌ {A = Store × Answer} (abs fs', answer a) (store_dispatch op name d (abs fs)))
unfolding dispatch store_dispatch
dispatch_refines op_create name d fs v = lift (create_refines name fs v)
dispatch_refines op_write name d fs v = lift (write_refines name d fs v)
dispatch_refines op_read name d fs v =
    (v, ap (λ c. (abs fs, (is_some c, c, λ n. 0))) (read_refines name fs v).0)
dispatch_refines op_list name d fs v =
    (v, ap (λ names. (abs fs, (true, none, names))) (fun_ext (λ n. count-list n fs v)))
dispatch_refines op_delete name d fs v = lift (delete_refines name fs v)

-- One request keeps the table valid, and leaves the store and gives the answer that the abstract
-- file store does.
pub serve_refines :
    (r : FsRequest) (fs : FileSystem)
    → IsValid fs
    → let (fs', a) = serve r fs in
      IsValid fs' × (◌≡◌ {A = Store × Answer} (abs fs', answer a) (store_serve r (abs fs)))
unfolding serve store_serve
serve_refines r fs v = dispatch_refines r.op r.name r.content fs v

pub serve_all_refines :
    (rs : List FsRequest) (fs : FileSystem)
    → IsValid fs
    → let (fs', out) = serve_all rs fs in
      IsValid fs'
      × (◌≡◌ {A = Store × List Answer} (abs fs', answers out) (store_serve_all rs (abs fs)))
unfolding serve_all store_serve_all
serve_all_refines [] fs v = (v, refl)
serve_all_refines (r ∷ rs) fs v =
    let one = serve_refines r fs v in
    let rest = serve_all_refines rs (serve r fs).0 one.0 in
    (
      rest.0,
      ap₂ (λ (s : Store × List Answer) (a : Answer). (s.0, a ∷ s.1))
          (rest.1 ∙ ap (λ p. store_serve_all rs p.0) one.1) (ap (λ p. p.1) one.1),
    )
