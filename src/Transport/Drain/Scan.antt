-- ===== src/Transport/Drain/Scan.antt =====
-- git_transport.py, the loop over the lanes: what it reads behind a cursor, and the cursor it
-- leaves, when no line of the lanes raises and no path comes twice.
use mcp_dispatch.Base.{
  neither, ℕ, zero, suc, ◌+◌, ◌≤◌, String, Bool, true, false, ◌&&◌, ◌==◌, some, List, [], ◌∷◌, ◌++◌,
  length, select, elem, All, ◌≡◌, refl, sym, subst, ap, ◌∙◌, arith, eq_iff, select-append,
  length-append,
}
use mcp_dispatch.Base.Dict.{Dict, put, get-put}
use mcp_dispatch.Transport.{Envelope, Line, blank, malformed, wrong_type, entry, LaneFile}
use mcp_dispatch.Transport.Drain.{consumed_of, before_rest, new_lines, consumed_after, read_lanes}
use mcp_dispatch.Transport.Drain.Listing.{
  envelopes, readable, drop, paths, Distinct, Readable, total, Grows, none_left, longer, added,
  CaughtUp,
}

pub new_lines-readable :
    (start : ℕ) (lines : List Line)
    → readable lines ≡ true
    → new_lines start lines ≡ some (envelopes (drop start lines))
unfolding new_lines
new_lines-readable zero [] h = refl
new_lines-readable (suc start) [] h = refl
new_lines-readable zero (blank ∷ lines) h = new_lines-readable zero lines h
new_lines-readable zero (malformed ∷ lines) h = new_lines-readable zero lines h
new_lines-readable zero (wrong_type ∷ lines) h = absurd (cc)
new_lines-readable zero (entry env ∷ lines) h =
    ap (before_rest (env ∷ [])) (new_lines-readable zero lines h)
new_lines-readable (suc start) (blank ∷ lines) h = new_lines-readable start lines h
new_lines-readable (suc start) (malformed ∷ lines) h = new_lines-readable start lines h
new_lines-readable (suc start) (wrong_type ∷ lines) h = absurd (cc)
new_lines-readable (suc start) (entry env ∷ lines) h = new_lines-readable start lines h

drop-append : (xs ys : List Line) → drop (length xs) (xs ++ ys) ≡ ys
drop-append [] ys = refl
drop-append (x ∷ xs) ys = drop-append xs ys

envelopes-append : (xs ys : List Line) → envelopes (xs ++ ys) ≡ envelopes xs ++ envelopes ys
envelopes-append [] ys = refl
envelopes-append (blank ∷ xs) ys = envelopes-append xs ys
envelopes-append (malformed ∷ xs) ys = envelopes-append xs ys
envelopes-append (wrong_type ∷ xs) ys = envelopes-append xs ys
envelopes-append (entry env ∷ xs) ys = ap (λ zs. env ∷ zs) (envelopes-append xs ys)

pub consumed_of-put_other :
    (consumed : Dict ℕ) (rel path : String) (n : ℕ)
    → path == rel ≡ false
    → consumed_of (put consumed rel n) path ≡ consumed_of consumed path
consumed_of-put_other consumed rel path n h =
    ground (arith, get-put consumed rel path n, eq_iff path rel, eq_iff rel path)

consumed_of-put_same :
    (consumed : Dict ℕ) (rel : String) (n : ℕ) → consumed_of (put consumed rel n) rel ≡ n
consumed_of-put_same consumed rel n = ground (arith, get-put consumed rel rel n, eq_iff rel rel)

pub differ : (a b : String) → a == b ≡ false → b == a ≡ false
differ a b h = ground (arith, eq_iff a b, eq_iff b a)

-- The envelopes behind a cursor that does not move.
unfoldable pub unread : (Envelope → Bool) → Dict ℕ → List LaneFile → List Envelope
unread keep consumed [] = []
unread keep consumed ((rel, lines) ∷ files) =
    select keep (envelopes (drop (consumed_of consumed rel) lines)) ++ unread keep consumed files

unread-put :
    (keep : Envelope → Bool) (consumed : Dict ℕ) (rel : String) (n : ℕ) (files : List LaneFile)
    → elem rel (paths files) ≡ false
    → unread keep (put consumed rel n) files ≡ unread keep consumed files
unfolding unread
unread-put keep consumed rel n [] h = refl
unread-put keep consumed rel n ((path, lines) ∷ files) h =
    let off = neither (path == rel) (elem rel (paths files)) h in
    rw (consumed_of-put_other consumed rel path n off.0, unread-put keep consumed rel n files off.1)

-- A listing that can be read is read behind the cursor as it was, ...
pub read_lanes-unread :
    (keep : Envelope → Bool) (consumed : Dict ℕ) (files : List LaneFile)
    → Distinct files
    → Readable files
    → (read_lanes keep consumed files).found ≡ some (unread keep consumed files)
unfolding read_lanes unread
read_lanes-unread keep consumed [] d r = refl
read_lanes-unread keep consumed ((rel, lines) ∷ files) d r =
    let start = consumed_of consumed rel in
    let n = consumed_after start lines in
    rw (
      new_lines-readable start lines r.0,
      read_lanes-unread keep (put consumed rel n) files d.1 r.1,
      unread-put keep consumed rel n files d.0,
    )

-- ... and the cursor of another lane stays.
pub read_lanes-other :
    (keep : Envelope → Bool) (consumed : Dict ℕ) (files : List LaneFile) (rel : String)
    → Readable files
    → elem rel (paths files) ≡ false
    → consumed_of (read_lanes keep consumed files).consumed rel ≡ consumed_of consumed rel
unfolding read_lanes
read_lanes-other keep consumed [] rel r h = refl
read_lanes-other keep consumed ((path, lines) ∷ files) rel r h =
    let start = consumed_of consumed path in
    let n = consumed_after start lines in
    let off = neither (path == rel) (elem rel (paths files)) h in
    rw
      (
        new_lines-readable start lines r.0,
        read_lanes-other keep (put consumed path n) files rel r.1 off.1,
      )
      (consumed_of-put_other consumed path rel n (differ path rel off.0))

-- A lane that is read is consumed whole, if the cursor was not past its end.
abbrev Within : Dict ℕ → List LaneFile → Type 0
Within consumed = All (λ (f : LaneFile). consumed_of consumed f.0 ≤ length f.1)

Within-put :
    (consumed : Dict ℕ) (rel : String) (n : ℕ) (files : List LaneFile)
    → elem rel (paths files) ≡ false
    → Within consumed files
    → Within (put consumed rel n) files
Within-put consumed rel n [] h w = tt
Within-put consumed rel n ((path, lines) ∷ files) h w =
    let off = neither (path == rel) (elem rel (paths files)) h in
    (
      rw (consumed_of-put_other consumed rel path n off.0) w.0,
      Within-put consumed rel n files off.1 w.1,
    )

read_lanes-moved :
    (keep : Envelope → Bool) (consumed : Dict ℕ) (rel : String) (lines : List Line)
    (files : List LaneFile)
    → readable lines ≡ true
    → (read_lanes keep consumed ((rel, lines) ∷ files)).consumed
      ≡ (read_lanes keep
          (put consumed rel (consumed_after (consumed_of consumed rel) lines))
          files).consumed
unfolding read_lanes
read_lanes-moved keep consumed rel lines files r =
    rw (new_lines-readable (consumed_of consumed rel) lines r) refl

pub read_lanes-CaughtUp :
    (keep : Envelope → Bool) (consumed : Dict ℕ) (files : List LaneFile)
    → Distinct files
    → Readable files
    → Within consumed files
    → CaughtUp (read_lanes keep consumed files).consumed files
read_lanes-CaughtUp keep consumed [] d r w = tt
read_lanes-CaughtUp keep consumed ((rel, lines) ∷ files) d r w =
    let start = consumed_of consumed rel in
    let n = consumed_after start lines in
    subst (λ c. CaughtUp c ((rel, lines) ∷ files))
      (sym (read_lanes-moved keep consumed rel lines files r.0))
      (
        read_lanes-other keep (put consumed rel n) files rel r.1 d.0
            ∙ consumed_of-put_same consumed rel n
            ∙ ground (arith, w.0),
        read_lanes-CaughtUp keep (put consumed rel n) files d.1 r.1
            (Within-put consumed rel n files d.0 w.1),
      )

count-kept :
    (p keep : Envelope → Bool) (xs ys : List Envelope)
    → length (select p (select keep xs ++ ys))
      ≡ length (select (λ e. keep e && p e) xs) + length (select p ys)
count-kept p keep [] ys = omega arith
count-kept p keep (x ∷ xs) ys = ground (arith, count-kept p keep xs ys)

pub count-append :
    (q : Envelope → Bool) (xs ys : List Envelope)
    → length (select q (xs ++ ys)) ≡ length (select q xs) + length (select q ys)
count-append q xs ys = rw select-append (length-append (select q xs) (select q ys))

-- Against a listing that has grown, the cursor is within the lanes, ...
pub Grows-Within :
    (known : List String) (consumed : Dict ℕ) (fs gs : List LaneFile)
    → Grows known fs gs
    → CaughtUp consumed fs
    → ((rel : String) → elem rel known ≡ false → consumed_of consumed rel ≡ 0)
    → Within consumed gs
Grows-Within known consumed _ _ none_left c z = tt
Grows-Within known consumed _ _ (longer rel lines extra {fs} {gs} g) c z =
    (omega (arith, c.0, length-append lines extra), Grows-Within known consumed fs gs g c.1 z)
Grows-Within known consumed _ _ (added rel lines {fs} {gs} new g) c z =
    (omega (arith, z rel new), Grows-Within known consumed fs gs g c z)

-- ... and what is unread behind it is what has come since.
pub unread-gain :
    (p keep : Envelope → Bool) (known : List String) (consumed : Dict ℕ) (fs gs : List LaneFile)
    → Grows known fs gs
    → CaughtUp consumed fs
    → ((rel : String) → elem rel known ≡ false → consumed_of consumed rel ≡ 0)
    → length (select p (unread keep consumed gs)) + total (λ e. keep e && p e) fs
      ≡ total (λ e. keep e && p e) gs
unfolding unread
unread-gain p keep known consumed _ _ none_left c z = refl
unread-gain p keep known consumed _ _ (longer rel lines extra {fs} {gs} g) c z =
    rw (c.0, drop-append, envelopes-append)
      (omega (
        arith,
        count-kept p keep (envelopes extra) (unread keep consumed gs),
        count-append (λ e. keep e && p e) (envelopes lines) (envelopes extra),
        unread-gain p keep known consumed fs gs g c.1 z,
      ))
unread-gain p keep known consumed _ _ (added rel lines {fs} {gs} new g) c z = rw (z rel new) (
    omega (
      arith,
      count-kept p keep (envelopes lines) (unread keep consumed gs),
      unread-gain p keep known consumed fs gs g c z,
    ))
