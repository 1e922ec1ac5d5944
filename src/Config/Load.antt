-- ===== src/Config/Load.antt =====
-- What `load` keeps of a file, and what of a file that is broken.
use conn.Common.{
  Bool, ◌≡◌, refl, sym, ◌∙◌, true, false, List, [], ◌∷◌, ◌++◌, Option, none, some, Bytes, codes,
  equal, ℤ, map, inl, inr, subst, ap, ◌⊎◌,
}
use mathlib.Core.List.{Perm}
use conn.Url.Lines.{split}
use conn.Exchange.{Exchange, str2ex}
use conn.Config.{
  ◌>>=◌, PropertyTree, StreamConfig, returned, read_exchanges, read_commas, sort_levels, read_rules,
  read_stream, read_streams, insert_stream, load,
}
use conn.Config.Commas.{read_all, read_commas-split, read_exchanges-split}
use conn.Config.Levels.{IsRising, sort_levels-perm, sort_levels-IsRising}

-- The value of a step that succeeded, for what is made of it.
bound :
    {A B C : Type 0} (m : Option A) (f : A → Option B) {b : B}
    → (m >>= f) ≡ some b
    → ((a : A) → m ≡ some a → f a ≡ some b → C)
    → C
bound none f h k = cc
bound (some a) f h k = k a refl h

some_inj : {A : Type 0} {x y : A} → some x ≡ some y → x ≡ y
some_inj h = cc

module _ (ptree : PropertyTree) (lexical_cast : Bytes → Option ℤ) where
  open ptree use {Tree, children, get, get_child}

  -- The exchanges of the text at a path.
  abbrev pub AreAt : Tree → Bytes → List Exchange → Type 0
  AreAt s path vec = (text : Bytes) × (get s path ≡ some text) × (vec ≡ map str2ex (split 44 text))

  -- The numbers of the text at a path, sorted.
  abbrev pub AreLevelsAt : Tree → Bytes → List ℤ → Type 0
  AreLevelsAt s path vec =
      (text : Bytes) × (vs : List ℤ) × (get s path ≡ some text)
      × (read_all lexical_cast [] (split 44 text) ≡ some vs)
      × Perm vec vs
      × IsRising vec

  exchanges_at :
      (s : Tree) (path text : Bytes) (vec : List Exchange)
      → get s path ≡ some text
      → read_exchanges text ≡ some vec
      → AreAt s path vec
  exchanges_at s path text vec e h = (text, e, some_inj (sym h ∙ read_exchanges-split text))

  abbrev pub IsStreamAt : Tree → StreamConfig → Type 0
  IsStreamAt s sc =
      (get s (codes "<xmlattr>.name") ≡ some sc.stream_name)
      × (get s (codes "<xmlattr>.symbol") ≡ some sc.symbol)
      × AreAt s (codes "primary_exchanges") sc.primary_exch_vec
      × AreAt s (codes "secondary_exchanges_order_book") sc.secondary_exch_vec
      × AreAt s (codes "secondary_exchanges_quote_book_fullamount") sc.secondary_exch_fullamount_vec
      × AreAt s (codes "secondary_exchanges_quote_book_sweepable") sc.secondary_exch_sweepable_vec
      × AreLevelsAt s (codes "vertical.levels") sc.level_vec

  stream_made :
      (s : Tree) (sc' sc : StreamConfig) → IsStreamAt s sc' → some sc' ≡ some sc → IsStreamAt s sc
  stream_made s sc' sc k h = subst (IsStreamAt s) (some_inj h) k

  levels_at :
      (s : Tree) (path text : Bytes) (vs : List ℤ)
      → get s path ≡ some text
      → read_commas lexical_cast text ≡ some vs
      → AreLevelsAt s path (sort_levels vs)
  levels_at s path text vs e h = (
    text,
    vs,
    e,
    sym (read_commas-split lexical_cast text) ∙ h,
    sort_levels-perm vs,
    sort_levels-IsRising vs,
  )

  -- A stream that is read has the name and the symbol of its attributes, the exchanges that the four
  -- texts name between their commas, and the numbers of its text of levels, sorted.
  pub read_stream_lem :
      (s : Tree) (sc : StreamConfig) → read_stream ptree lexical_cast s ≡ some sc → IsStreamAt s sc
  unfolding read_stream
  read_stream_lem s sc h = bound (get s (codes "<xmlattr>.name")) _ h λ name e1 h1.
      bound (get s (codes "<xmlattr>.symbol")) _ h1 λ symbol e2 h2.
        bound (get s (codes "primary_exchanges")) _ h2 λ t1 e3 h3.
          bound (read_exchanges t1) _ h3 λ v1 r1 h4.
            bound (get s (codes "secondary_exchanges_order_book")) _ h4 λ t2 e4 h5.
              bound (read_exchanges t2) _ h5 λ v2 r2 h6.
                bound (get s (codes "secondary_exchanges_quote_book_fullamount")) _ h6 λ t3 e5 h7.
                  bound (read_exchanges t3) _ h7 λ v3 r3 h8.
                    bound (get s (codes "secondary_exchanges_quote_book_sweepable")) _ h8
                      λ t4 e6 h9. bound (read_exchanges t4) _ h9 λ v4 r4 h10.
                        bound (get_child s (codes "horizontal")) _ h10 λ hrules e7 h11.
                          bound (read_rules ptree lexical_cast (children hrules) []) _ h11
                            λ rule_map e8 h12.
                              bound (get s (codes "vertical.levels")) _ h12 λ t5 e9 h13.
                                bound (read_commas lexical_cast t5) _ h13 λ vs r5 h14.
                                  stream_made s _ sc
                                    (
                                      e1,
                                      e2,
                                      exchanges_at s _ t1 v1 e3 r1,
                                      exchanges_at s _ t2 v2 e4 r2,
                                      exchanges_at s _ t3 v3 e5 r3,
                                      exchanges_at s _ t4 v4 e6 r4,
                                      levels_at s _ t5 vs e9 r5,
                                    )
                                    h14

  -- The configurations of the children that are streams, in order; the others are passed over.
  abbrev pub AreRead : List (Bytes × Tree) → List StreamConfig → Type 0
  AreRead [] scs = scs ≡ []
  AreRead ((name, s) ∷ streams) scs =
      ((equal name (codes "stream") ≡ false) × AreRead streams scs)
      ⊎ ((equal name (codes "stream") ≡ true)
          × ((sc : StreamConfig) × (rest : List StreamConfig) × (scs ≡ sc ∷ rest)
              × (read_stream ptree lexical_cast s ≡ some sc)
              × AreRead streams rest))

  -- Each of the configurations in its turn: the first of a name stays.
  abbrev pub insert_each :
      List StreamConfig → List (Bytes × StreamConfig) → List (Bytes × StreamConfig)
  insert_each [] str_cfg = str_cfg
  insert_each (sc ∷ scs) str_cfg = insert_each scs (insert_stream ptree lexical_cast sc str_cfg)

  -- Streams that can all be read are all inserted, and those behind them go on from there.
  pub read_streams-append :
      (front back : List (Bytes × Tree)) (scs : List StreamConfig)
      (str_cfg : List (Bytes × StreamConfig))
      → AreRead front scs
      → read_streams ptree lexical_cast (front ++ back) str_cfg
        ≡ read_streams ptree lexical_cast back (insert_each scs str_cfg)
  unfolding read_streams
  read_streams-append [] back scs str_cfg k =
      ap (λ l. read_streams ptree lexical_cast back (insert_each l str_cfg)) (sym k)
  read_streams-append ((name, s) ∷ front) back scs str_cfg (inl (other, k)) =
      rw other (read_streams-append front back scs str_cfg k)
  read_streams-append ((name, s) ∷ front) back scs str_cfg (inr (named, (sc, rest, e, read, k))) =
      rw (named, read, e)
        (read_streams-append front back rest (insert_stream ptree lexical_cast sc str_cfg) k)

  -- A list of streams that is empty, or of which the first cannot be read.
  abbrev pub Ends : List (Bytes × Tree) → Type 0
  Ends [] = Unit {0}
  Ends ((name, s) ∷ streams) =
      (equal name (codes "stream") ≡ true) × (read_stream ptree lexical_cast s ≡ none)

  -- Whether it is empty.
  abbrev pub is_end : List (Bytes × Tree) → Bool
  is_end [] = true
  is_end (_ ∷ _) = false

  -- `load` inserts the streams in front of the first that cannot be read, and returns whether there is
  -- none that cannot.
  pub load-insert_each :
      (prop node : Tree) (front back : List (Bytes × Tree)) (scs : List StreamConfig)
      → get_child prop (codes "IN") ≡ some node
      → children node ≡ front ++ back
      → AreRead front scs
      → Ends back
      → load ptree lexical_cast (some prop) [] ≡ returned (is_end back) (insert_each scs [])
  unfolding load read_streams
  load-insert_each prop node front [] scs found parts k stop =
      rw (load, found, parts, read_streams-append front [] scs [] k) refl
  load-insert_each prop node front ((name, s) ∷ back) scs found parts k (named, bad) =
      rw (load, found, parts, read_streams-append front ((name, s) ∷ back) scs [] k)
        (rw (named, bad) refl)
