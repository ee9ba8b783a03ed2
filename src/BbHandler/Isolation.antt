-- ===== src/BbHandler/Isolation.antt =====
-- A write to a file and the other files, which lie in the same ring.
use peanuts.Base.{ℕ, ◌+◌, ◌<◌, ◌≡◌, ◌∙◌, sym, ap, List, length, arith, two64}
use peanuts.ExtentTree.{ExtentTree}
use peanuts.BbHandler.{Handler, ok, pwrite}
use peanuts.BbHandler.Write.{
  IsReady, local_byte, after, pwrite-ok, pwrite-room, ok-injective, memory-after, span, held,
  after-head, same-ring,
}
use peanuts.NodeSet.Lookup.{lookup}

-- Behind a write that succeeds, a file with the tree `t` has the bytes that it had, and is ready.
pub pwrite-other :
    (disp rank : ℕ) (h : Handler) (buf : List ℕ) (ofs : ℕ) (t : ExtentTree) {n : ℕ} {h' : Handler}
    → IsReady h
    → IsReady (record h { local_tree = t })
    → 0 < length buf
    → ofs + length buf < two64
    → pwrite rank disp h buf ofs ≡ ok (n, h')
    → IsReady (record h' { local_tree = t })
      × ((p : ℕ)
          → local_byte disp (record h' { local_tree = t }) p
            ≡ local_byte disp (record h { local_tree = t }) p)
pwrite-other disp rank h buf ofs t {n} {h'} r o pos fits e =
    let room = pwrite-room disp rank h buf ofs r e in
    let eh : h' ≡ after disp rank h buf ofs r pos fits room =
      ap (λ (x : ℕ × Handler). x.1)
        (ok-injective (sym e ∙ pwrite-ok disp rank h buf ofs r pos fits room)) in
    let head = after-head disp rank h buf ofs r pos fits room in
    let fit = span disp rank h buf ofs r pos fits room in
    let ring = same-ring disp rank h buf ofs r pos fits room in
    rw eh (
      record {
        nodes = o.nodes;
        pos = omega (arith, ring.0);
        small = omega (arith, ring.0);
        room = omega (arith, ring.0, ring.1);
        tail-le = omega (arith, head, ring.1);
        head-le = omega (arith, head, fit, ring.0, ring.1);
        live = λ p c a x. let l = o.live p c a x in (omega (arith, ring.1), omega (arith, head));
      },
      λ p.
          rw (memory-after disp rank h buf ofs r pos fits room, ring.0)
            (held disp rank h buf ofs r pos fits room (lookup t p) (λ c a x. o.live p c a x)),
    )
