-- ===== src/Zc/Arrays.antt =====
-- The session's page array: `adjust_sg_array` makes room, and writes land where they should.
use cryptodev_linux.Prelude.{
  ℕ, zero, suc, ◌+◌, ◌-◌, ◌*◌, ◌%◌, ◌^◌, ◌≤◌, ◌<◌, ◌≡◌, refl, inl, inr, true, false, Bool, some,
  List, ◌++◌, arith, ltb, Bool-cases, length, take, drop, replicate, Code, success, fail, enomem,
  length-append, length-take, length-drop, length-replicate, if◌then◌else◌, take-length_append,
  append_assoc,
}
use cryptodev_linux.Zc.Defs.{UserPages, double_until, krealloc, resize, adjust_sg_array, splice}

double_until_lem :
    (fuel size pagecount : ℕ)
    → 0 < size
    → pagecount < 2 ^ 30
    → 0 < fuel
    → pagecount < fuel + size
    → (n : ℕ) × (double_until fuel size pagecount ≡ some n) × (pagecount ≤ n) × (size ≤ n)
unfolding double_until
double_until_lem zero size pagecount p q f h = absurd (omega arith)
double_until_lem (suc fuel) size pagecount p q f h = elim (Bool-cases (ltb size pagecount)) [
  | inl more ↦
      let ih =
        double_until_lem fuel (size * 2 % 2 ^ 32) pagecount (ground arith) q (ground arith)
          (ground arith) in
      rw more (ih.0, ih.1, ih.2, ground (arith, ih.3))
  | inr done ↦ rw done (size, refl, ground arith, omega arith)
]

length-krealloc : (pages : List ℕ) (size : ℕ) → length (krealloc pages size) ≡ size
length-krealloc pages size = omega (
  arith,
  length-take size (pages ++ replicate (size - length pages) 0),
  length-append pages (replicate (size - length pages) 0),
  length-replicate {A = ℕ} (size - length pages) 0,
)

-- The session's arrays hold what its counts say.
pub record HasRoom (ses : UserPages) : Type 0 where
  pub some_room : 0 < ses.array_size
  pub in_array : ses.array_size ≤ length ses.pages

-- What `adjust_sg_array` promises of its result: it fails exactly when one of the two allocations
-- does, and then leaves the size alone; otherwise the arrays hold the pages asked for. It keeps
-- `HasRoom` and the two counts of pages.
pub record Adjusted (pages_ok sg_ok : Bool) (ses : UserPages) (pagecount : ℕ) (r : Code × UserPages)
    : Type 0 where
  pub code : r.0 ≡ (if pages_ok then (if sg_ok then success else fail enomem) else fail enomem)
  pub enough : (r.0 ≡ success) → pagecount ≤ r.1.array_size
  pub unchanged : (r.0 ≡ fail enomem) → r.1.array_size ≡ ses.array_size
  pub room : HasRoom r.1
  pub used : r.1.used_pages ≡ ses.used_pages
  pub readonly : r.1.readonly_pages ≡ ses.readonly_pages

resize-Adjusted :
    (pages_ok sg_ok : Bool) (ses : UserPages) (pagecount n : ℕ)
    → HasRoom ses
    → pagecount ≤ n
    → ses.array_size ≤ n
    → Adjusted pages_ok sg_ok ses pagecount (resize pages_ok sg_ok ses n)
unfolding resize
resize-Adjusted false sg_ok ses pagecount n room p q = record {
  code = refl;
  enough = λ e. cc;
  unchanged = λ e. refl;
  room = room;
  used = refl;
  readonly = refl;
}
resize-Adjusted true false ses pagecount n room p q = record {
  code = refl;
  enough = λ e. cc;
  unchanged = λ e. refl;
  room = omega (arith, length-krealloc ses.pages n);
  used = refl;
  readonly = refl;
}
resize-Adjusted true true ses pagecount n room p q = record {
  code = refl;
  enough = λ e. p;
  unchanged = λ e. cc;
  room = omega (arith, length-krealloc ses.pages n);
  used = refl;
  readonly = refl;
}

-- `adjust_sg_array` always ends, with a result as described above.
pub adjust_sg_array-Adjusted :
    (pages_ok sg_ok : Bool) (ses : UserPages) (pagecount : ℕ)
    → HasRoom ses
    → pagecount < 2 ^ 30
    → (r : Code × UserPages) × (adjust_sg_array pages_ok sg_ok ses pagecount ≡ some r)
      × Adjusted pages_ok sg_ok ses pagecount r
unfolding adjust_sg_array
adjust_sg_array-Adjusted pages_ok sg_ok ses pagecount room small =
    let n =
      double_until_lem (suc pagecount) ses.array_size pagecount room.some_room small (omega arith)
        (omega (arith, room.some_room)) in
    rw n.1 (
      resize pages_ok sg_ok ses n.0,
      refl,
      resize-Adjusted pages_ok sg_ok ses pagecount n.0 room n.2 n.3,
    )

length-splice :
    (i : ℕ) (pg pages : List ℕ)
    → i + length pg ≤ length pages
    → length (splice i pg pages) ≡ length pages
length-splice i pg pages h = omega (
  arith,
  length-append (take i pages) (pg ++ drop (i + length pg) pages),
  length-append pg (drop (i + length pg) pages),
  length-take i pages,
  length-drop (i + length pg) pages,
)

-- Two writes one behind the other leave both lists at the start of the array.
pub take-splice :
    (xs ys pages : List ℕ) (i n : ℕ)
    → i ≡ length xs
    → n ≡ length xs + length ys
    → take n (splice i ys (splice 0 xs pages)) ≡ xs ++ ys
take-splice xs ys pages i n p q =
    rw (q, p, take-length_append, ← append_assoc xs ys, ← length-append xs ys)
      (take-length_append (xs ++ ys) _)
