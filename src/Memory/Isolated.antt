-- ===== src/Memory/Isolated.antt =====
-- A deep copy and its original stand for the same, and no write through one is seen through the
-- other. The objects that `DeepCopyObject` returns.
use kubedns_shepherd.Base.{Option, none, some, length, ◌∙◌}
use kubedns_shepherd.Api.{DnsClass, DnsClassList}
use kubedns_shepherd.Memory.{Pointer, Memory}
use kubedns_shepherd.Memory.Kinds.{class, class_list}
use kubedns_shepherd.Memory.Copies.{
  Kubernetes, RuntimeObject, nil, dns_class, dns_class_list, class_object, list_object,
}
use kubedns_shepherd.Memory.Stands.{Relation, AgreeOn, At, Local, StandsClass, StandsList}
use kubedns_shepherd.Memory.Copied.{IsDeepCopy, Extends-AgreeOn, At-Local}
use kubedns_shepherd.Memory.Local.{StandsClass-Local, StandsList-Local}
use kubedns_shepherd.Memory.DeepCopy.{Documented, new_class-IsDeepCopy, new_list-IsDeepCopy}

-- In the memory `n` after the copy, `v'` is a copy of `v`: whatever is then written to the new
-- cells, `v` stands for `x`, and whatever is written to the old ones, `v'` stands for `x`.
pub record Isolated {V W A : Type 0} (S : Relation V A) (T : Relation W A) (m n : Memory) (v : V)
    (v' : W) (x : A) : Type 0 where
  pub original : (o : Memory) → AgreeOn 0 (length m) n o → S o v x
  pub copy : (o : Memory) → AgreeOn (length m) (length n) n o → T o v' x

-- What an interface value stands for: a pointer of the type that is not nil.
abbrev pub StandsObject : Relation RuntimeObject (Option (DnsClass))
StandsObject m nil none = Unit
StandsObject m (dns_class (some a)) (some c) = At class StandsClass m (some a) (some c)
StandsObject m _ _ = ⊥

abbrev pub StandsListObject : Relation RuntimeObject (Option (DnsClassList))
StandsListObject m nil none = Unit
StandsListObject m (dns_class_list (some a)) (some l) = At class_list StandsList m (some a) (some l)
StandsListObject m _ _ = ⊥

IsDeepCopy-Isolated :
    {V A : Type 0} {S : Relation V A} {copy : V → Memory → V × Memory}
    → IsDeepCopy S copy
    → Local S
    → (v : V) (m : Memory) (x : A) → S m v x
    → Isolated S S m (copy v m).1 v (copy v m).0 x
IsDeepCopy-Isolated d local v m x s = record {
  original = λ o agree.
      local m o v x (λ a low high. agree a low high ∙ Extends-AgreeOn 0 (d.extends v m) a low high)
        s;
  copy = d.copied v m x s;
}

class_StandsObject :
    (m : Memory) (p : Pointer) (x : Option DnsClass)
    → At class StandsClass m p x
    → StandsObject m (elim p [ none ↦ nil | some c ↦ dns_class (some c) ]) x
class_StandsObject m none none s = tt
class_StandsObject m (some a) (some c) s = s
class_StandsObject m none (some c) s = s
class_StandsObject m (some a) none s = s

list_StandsListObject :
    (m : Memory) (p : Pointer) (x : Option DnsClassList)
    → At class_list StandsList m p x
    → StandsListObject m (elim p [ none ↦ nil | some c ↦ dns_class_list (some c) ]) x
list_StandsListObject m none none s = tt
list_StandsListObject m (some a) (some l) s = s
list_StandsListObject m none (some l) s = s
list_StandsListObject m (some a) none s = s

module _ (kubernetes : Kubernetes) (documented : Documented kubernetes) where
  class_object-Isolated :
      (p : Pointer) (m : Memory) (x : Option DnsClass)
      → At class StandsClass m p x
      → let (o, n) = class_object kubernetes p m in
        Isolated (At class StandsClass) StandsObject m n p o x
  unfolding class_object
  class_object-Isolated p m x s =
      let isolated =
        IsDeepCopy-Isolated (new_class-IsDeepCopy kubernetes documented)
          (At-Local class StandsClass StandsClass-Local) p m x s in
      record {
        original = isolated.original;
        copy = λ o agree. class_StandsObject o _ x (isolated.copy o agree);
      }

  list_object-Isolated :
      (p : Pointer) (m : Memory) (x : Option DnsClassList)
      → At class_list StandsList m p x
      → let (o, n) = list_object kubernetes p m in
        Isolated (At class_list StandsList) StandsListObject m n p o x
  unfolding list_object
  list_object-Isolated p m x s =
      let isolated =
        IsDeepCopy-Isolated (new_list-IsDeepCopy kubernetes documented)
          (At-Local class_list StandsList StandsList-Local) p m x s in
      record {
        original = isolated.original;
        copy = λ o agree. list_StandsListObject o _ x (isolated.copy o agree);
      }

  -- Let the deep copies of the Kubernetes types that are called be deep copies. Then
  -- `DeepCopyObject` of `DNSClass` and of `DNSClassList` makes of a nil pointer the nil interface,
  -- and of any other an object that stands for the same class or list as the original: the original
  -- does not depend on what is later written to the cells that the call has allocated, and the copy
  -- does not depend on what is later written to the cells that were there before.
  pub objects-Isolated :
      (p q : Pointer) (m : Memory) (x : Option DnsClass) (l : Option DnsClassList)
      → At class StandsClass m p x
      → At class_list StandsList m q l
      → let (o, n) = class_object kubernetes p m in
        let (o', n') = list_object kubernetes q m in
        Isolated (At class StandsClass) StandsObject m n p o x
        × Isolated (At class_list StandsList) StandsListObject m n' q o' l
  objects-Isolated p q m x l s t = (class_object-Isolated p m x s, list_object-Isolated q m l t)
