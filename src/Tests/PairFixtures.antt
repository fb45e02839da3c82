-- ===== src/Tests/PairFixtures.antt =====
-- Deep copies of two fields of a struct.
use kubedns_shepherd.Memory.{Memory}
use kubedns_shepherd.Memory.Stands.{Relation, Local}
use kubedns_shepherd.Memory.Copied.{Extends-refl, Extends-trans, IsDeepCopy, Lives-within}

-- Two fields of a struct, one after the other.
abbrev pub copy_both :
    {V W : Type 0}
    → (V → Memory → V × Memory)
    → (W → Memory → W × Memory)
    → V × W
    → Memory
    → (V × W) × Memory
copy_both f g (v, w) m = let (v', m1) = f v m in let (w', m2) = g w m1 in ((v', w'), m2)

abbrev pub Both : {V W A B : Type 0} → Relation V A → Relation W B → Relation (V × W) (A × B)
Both S T m (v, w) (a, b) = S m v a × T m w b

pub Both-Local :
    {V W A B : Type 0} (S : Relation V A) (T : Relation W B) → Local S → Local T → Local (Both S T)
Both-Local S T first second m n (v, w) (a, b) agree (s, t) =
    (first m n v a agree s, second m n w b agree t)

pub copy_both-IsDeepCopy :
    {V W A B : Type 0} (S : Relation V A) (T : Relation W B) {f : V → Memory → V × Memory}
    {g : W → Memory → W × Memory}
    → Local S
    → Local T
    → IsDeepCopy S f
    → IsDeepCopy T g
    → IsDeepCopy (Both S T) (copy_both f g)
copy_both-IsDeepCopy S T {f} {g} first second d e = record {
  extends = λ (v, w) m. Extends-trans (d.extends v m) (e.extends w (f v m).1);
  copied = λ (v, w) m (a, b) (s, t) n agree. (
    Lives-within S d first (Extends-refl m) s (e.extends w (f v m).1) n agree,
    Lives-within T e second (d.extends v m) t (Extends-refl (g w (f v m).1).1) n agree,
  );
}
