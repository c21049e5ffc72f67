-- ===== src/Remote/Uploading.antt =====
-- What Upload leaves in the remote storage, whatever calls fail.
use save_knot.Prelude.{
  ℕ, Bool, true, false, Option, none, some, List, [], ◌∷◌, map, String, ◌==◌, find, if◌then◌else◌,
  ◌≡◌, refl, sym, ap, ◌∙◌, arith, eq_iff, eq_refl, Bool-cases, ◌⊎◌, inl, inr,
}
use save_knot.Paths.{FilePath, path_eq, parts_eq}
use save_knot.Io.{
  Disk, FileNode, open_file, Error, Result, ok, err, World, RemoteObject, pure, ◌>>=◌, ◌>>◌,
  message, some_call,
}
use save_knot.Io.Laws.{Result-cases, bind_outcome}
use save_knot.Io.Reads.{Reads, reads_rules}
use save_knot.Database.Schema.{Database, BlobRow}
use save_knot.Database.Snapshots.{or_no_rows}
use save_knot.Database.Blobs.{path_of, find_blob, blob_path, blob_uploaded, mark_blob_uploaded}
use save_knot.Remote.{
  object_at, store_object, put_object, is_hash_length, blob_key, read_blob, send_blob, ensure_blob,
}

parts_eq_refl : (ps : List String) → parts_eq ps ps ≡ true
parts_eq_refl [] = refl
parts_eq_refl (p ∷ ps) = rw (eq_refl p, parts_eq_refl ps)

pub path_eq_refl : (p : FilePath) → path_eq p p ≡ true
path_eq_refl p = ground (arith, parts_eq_refl p.parts)

parts_eq_sound : (ps qs : List String) → parts_eq ps qs ≡ true → ps ≡ qs
parts_eq_sound [] [] h = refl
parts_eq_sound [] (_ ∷ _) h = absurd (cc)
parts_eq_sound (_ ∷ _) [] h = absurd (cc)
parts_eq_sound (p ∷ ps) (q ∷ qs) h = ground (arith, eq_iff p q, parts_eq_sound ps qs)

pub path_eq_sound : (p q : FilePath) → path_eq p q ≡ true → p ≡ q
path_eq_sound p q h = ground (arith, parts_eq_sound p.parts q.parts)

pub object_at-store_object :
    (k key : FilePath) (body : List ℕ) (os : List RemoteObject)
    → object_at k (store_object key body os) ≡ (if path_eq key k then some body else object_at k os)
unfolding store_object find
object_at-store_object k key body [] = ground arith
object_at-store_object k key body (o ∷ os) = elim (Bool-cases (path_eq o.key key)) [
  | inl e ↦ rw (e, path_eq_sound o.key key e) (ground arith)
  | inr e ↦ rw e (
      ground (
        arith,
        object_at-store_object k key body os,
        path_eq_sound o.key k,
        path_eq_sound key k,
        e,
      ))
]

abbrev pub is_marked : String → Option BlobRow → Bool
is_marked target none = false
is_marked target (some b) = b.uploaded_to == target

-- The index holds the blob for uploaded to the target.
abbrev pub is_uploaded : String → Database → String → Bool
is_uploaded target db hash = is_marked target (find_blob hash db)

abbrev pub marked_rows : String → String → List BlobRow → List BlobRow
marked_rows hash target = map λ b. if b.hash == hash then record b { uploaded_to = target } else b

pub is_uploaded-marked :
    (target hash h : String) (rows : List BlobRow)
    → is_marked target (find (λ b. b.hash == h) (marked_rows hash target rows)) ≡ true
    → (hash == h) ≡ true ⊎ (is_marked target (find (λ b. b.hash == h) rows) ≡ true)
unfolding find
is_uploaded-marked target hash h [] e = inr e
is_uploaded-marked target hash h (b ∷ rows) e = ground (
  arith,
  e,
  is_uploaded-marked target hash h rows,
  eq_iff b.hash hash,
  eq_iff b.hash h,
  eq_iff hash h,
)

-- The content of the file that the index names for the hash
abbrev pub IsSource : Database → Disk → String → List ℕ → Type 0
IsSource db disk hash body =
    (path : String) × (node : FileNode) × (path_of (find_blob hash db) ≡ some path)
    × (disk path ≡ some node)
    × (node.content ≡ body)

-- How ensureBlob ends: the blob was marked as uploaded; or the content of its file is sent
-- and the blob marked; or an error leaves
-- nothing sent, or the blob sent and not marked.
pub data Ended (target hash : String) (db : Database) (disk : Disk) (os : List RemoteObject)
    (o : Result (Unit {0}) × World) : Type 0 where
  known :
      o.0 ≡ ok tt
      → o.1.db ≡ db
      → o.1.objects ≡ os
      → is_uploaded target db hash ≡ true
      → o.1.disk ≡ disk
      → Ended target hash db disk os o
  sent :
      (body : List ℕ)
      → IsSource db disk hash body
      → o.0 ≡ ok tt
      → o.1.db ≡ record db { blobs = marked_rows hash target db.blobs }
      → o.1.objects ≡ store_object (blob_key hash) body os
      → o.1.disk ≡ disk
      → Ended target hash db disk os o
  unsent :
      (e : Error)
      → o.0 ≡ err e
      → o.1.db ≡ db
      → o.1.objects ≡ os
      → o.1.disk ≡ disk
      → Ended target hash db disk os o
  unmarked :
      (e : Error) (body : List ℕ)
      → IsSource db disk hash body
      → o.0 ≡ err e
      → o.1.db ≡ db
      → o.1.objects ≡ store_object (blob_key hash) body os
      → o.1.disk ≡ disk
      → Ended target hash db disk os o

or_no_rows-Reads {ℓ} : {A : Type ℓ} (o : Option A) → Reads (or_no_rows o)
or_no_rows-Reads none = search reads_rules
or_no_rows-Reads (some a) = search reads_rules

read_blob-Reads : (hash : String) → Reads (read_blob hash)
unfolding read_blob blob_path
read_blob-Reads hash = search (reads_rules, or_no_rows-Reads)

blob_uploaded-Reads : (hash target : String) → Reads (blob_uploaded hash target)
unfolding blob_uploaded
blob_uploaded-Reads hash target = search (reads_rules, or_no_rows-Reads)

finishing-Ended :
    (target hash : String) (body : List ℕ) (w : World)
    → IsSource w.db w.disk hash body
    → Ended target hash w.db w.disk w.objects
        ((put_object (blob_key hash) body >> (some_call >> mark_blob_uploaded hash target)) w)
unfolding put_object some_call mark_blob_uploaded ◌>>=◌
finishing-Ended target hash body w s =
    let w₁ : World = (put_object (blob_key hash) body w).1 in
    let w₂ : World = (some_call w₁).1 in
    elim (Result-cases (put_object (blob_key hash) body w).0) [
      | inl (_, a) ↦ elim (Result-cases (some_call w₁).0) [
        | inl (_, b) ↦ elim (Result-cases (mark_blob_uploaded hash target w₂).0) [
          | inl (_, c) ↦
              sent body s (ground (arith, a, b, c)) (ground (arith, a, b, c))
                (ground (arith, a, b, c)) (ground (arith, a, b, c))
          | inr (x, c) ↦
              unmarked x body s (ground (arith, a, b, c)) (ground (arith, a, b, c))
                (ground (arith, a, b, c)) (ground (arith, a, b, c))
        ]
        | inr (x, b) ↦
            unmarked x body s (ground (arith, a, b)) (ground (arith, a, b)) (ground (arith, a, b))
              (ground (arith, a, b))
      ]
      | inr (x, a) ↦
          unsent x (ground (arith, a)) (ground (arith, a)) (ground (arith, a)) (ground (arith, a))
    ]

moved-Ended :
    (target hash : String) (u w : World) (o : Result (Unit {0}) × World)
    → u.db ≡ w.db
    → u.disk ≡ w.disk
    → u.objects ≡ w.objects
    → Ended target hash u.db u.disk u.objects o
    → Ended target hash w.db w.disk w.objects o
moved-Ended target hash u w o d k e h = rw (← d, ← k, ← e) h

blob_path-ok :
    (hash path : String) (w : World)
    → (blob_path hash w).0 ≡ ok path
    → path_of (find_blob hash w.db) ≡ some path
unfolding blob_path ◌>>=◌
blob_path-ok hash path w h = ground (arith, h)

open_file-ok :
    (path : String) (node : FileNode) (w : World)
    → (open_file path w).0 ≡ ok node
    → w.disk path ≡ some node
unfolding open_file
open_file-ok path node w h = ground (arith, h)

blob_path-Reads : (hash : String) → Reads (blob_path hash)
unfolding blob_path
blob_path-Reads hash = search (reads_rules, or_no_rows-Reads)

node-content :
    (node : FileNode) (body : List ℕ) (w : World)
    → ((some_call >> pure node.content) w).0 ≡ ok body
    → node.content ≡ body
unfolding ◌>>=◌
node-content node body w h = ground (arith, h)

read_blob-IsSource :
    (hash : String) (body : List ℕ) (w : World)
    → (read_blob hash w).0 ≡ ok body
    → IsSource w.db w.disk hash body
unfolding read_blob
read_blob-IsSource hash body w =
    bind_outcome (λ o. o.0 ≡ ok body → IsSource w.db w.disk hash body) (blob_path hash)
      (λ path. open_file path >>= (λ node. some_call >> pure node.content)) w
      (λ path p.
        let v : World = (blob_path hash w).1 in
        bind_outcome (λ o. o.0 ≡ ok body → IsSource w.db w.disk hash body) (open_file path)
          (λ node. some_call >> pure node.content) v
          (λ node n h. (
            path,
            node,
            blob_path-ok hash path w p,
            sym (ap (λ d. d path) ((blob_path-Reads hash).disk w)) ∙ open_file-ok path node v n,
            node-content node body (open_file path v).1 h,
          ))
          (λ x _ h. absurd (ground (arith, h))))
      (λ x _ h. absurd (ground (arith, h)))

send_blob-Ended :
    (target hash : String) (w : World)
    → Ended target hash w.db w.disk w.objects (send_blob target hash w)
unfolding send_blob
send_blob-Ended target hash w =
    let v : World = (read_blob hash w).1 in
    let r : Reads (read_blob hash) = read_blob-Reads hash in
    bind_outcome (Ended target hash w.db w.disk w.objects) (read_blob hash)
      (λ body. put_object (blob_key hash) body >> (some_call >> mark_blob_uploaded hash target)) w
      (λ body e.
        moved-Ended target hash v w
          ((put_object (blob_key hash) body >> (some_call >> mark_blob_uploaded hash target)) v)
          (r.db w) (r.disk w) (r.objects w)
          (finishing-Ended target hash body v
            (rw (r.db w, r.disk w) (read_blob-IsSource hash body w e))))
      (λ x e. unsent x refl (r.db w) (r.objects w) (r.disk w))

blob_uploaded_lem :
    (target hash : String) (w : World) (b : Bool)
    → (blob_uploaded hash target w).0 ≡ ok b
    → is_uploaded target w.db hash ≡ b
unfolding blob_uploaded ◌>>=◌
blob_uploaded_lem target hash w b h = ground (arith, h)

decided-Ended :
    (target hash : String) (already : Bool) (w v : World)
    → v.db ≡ w.db
    → v.disk ≡ w.disk
    → v.objects ≡ w.objects
    → is_uploaded target w.db hash ≡ already
    → Ended target hash w.db w.disk w.objects
        ((if already then pure tt else send_blob target hash) v)
decided-Ended target hash true w v d k o u = known refl d o u k
decided-Ended target hash false w v d k o u =
    moved-Ended target hash v w (send_blob target hash v) d k o (send_blob-Ended target hash v)

pub ensure_blob-Ended :
    (target hash : String) (w : World)
    → Ended target hash w.db w.disk w.objects (ensure_blob target hash w)
unfolding ensure_blob
ensure_blob-Ended target hash w = elim (Bool-cases (is_hash_length hash)) [
  | inl good ↦
      let v : World = (blob_uploaded hash target w).1 in
      let r : Reads (blob_uploaded hash target) = blob_uploaded-Reads hash target in
      rw good (
        bind_outcome (Ended target hash w.db w.disk w.objects) (blob_uploaded hash target)
          (λ already. if already then pure tt else send_blob target hash) w
          (λ already e.
            decided-Ended target hash already w v (r.db w) (r.disk w) (r.objects w)
              (blob_uploaded_lem target hash w already e))
          (λ x e. unsent x refl (r.db w) (r.objects w) (r.disk w)))
  | inr bad ↦ rw bad (unsent (message "invalid local blob hash") refl refl refl refl)
]
