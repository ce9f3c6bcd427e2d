-- ===== src/Macros/Nano/Tests.antt =====
-- `nano!` with expressions of one token: `e` is the future `e` or the frequency `e`.
use uefi_async.Base.{
  ℕ, zero, suc, ◌≡◌, ◌≢◌, ◌≤◌, ◌<◌, refl, ap, ◌∙◌, Bool, true, false, List, [], ◌∷◌, Option, none,
  some, length, arith,
}
use uefi_async.Macros.Nano.{Syn, ExecutorEntry, Statement, task, statements}
use uefi_async.Macros.Nano.RoundTrip.{SynLaws, terminated, print_executor, task-print}
use uefi_async.Macros.Nano.Registers.{Scope, perform_all, put, written, nano_registers}

mutual
  data Token : Type 0 where
    arrow fat_arrow comma : Token
    word : ℕ → Token
    braces : Tokens → Token

  data Tokens : Type 0 where
    stop : Tokens
    then : Token → Tokens → Tokens

abbrev packed : List Token → Tokens
packed [] = stop
packed (t ∷ ts) = then t (packed ts)

abbrev unpacked : Tokens → List Token
unpacked stop = []
unpacked (then t ts) = t ∷ unpacked ts

unpacked-packed : (ts : List Token) → unpacked (packed ts) ≡ ts
unpacked-packed [] = refl
unpacked-packed (t ∷ ts) = ap (λ l. t ∷ l) (unpacked-packed ts)

abbrev is_arrow : Token → Bool
is_arrow arrow = true
is_arrow t = false

abbrev parse_word : List Token → Option (ℕ × List Token)
parse_word (word n ∷ ts) = some (n, ts)
parse_word ts = none

abbrev parse_arrow : List Token → Option (List Token)
parse_arrow (arrow ∷ ts) = some ts
parse_arrow ts = none

abbrev parse_fat_arrow : List Token → Option (List Token)
parse_fat_arrow (fat_arrow ∷ ts) = some ts
parse_fat_arrow ts = none

abbrev braced : List Token → Option (List Token × List Token)
braced (braces body ∷ ts) = some (unpacked body, ts)
braced ts = none

module _ {A : Type 0} where
  abbrev with_first : A → Option (List A) → Option (List A)
  with_first a none = none
  with_first a (some bs) = some (a ∷ bs)

  -- What follows an element.
  abbrev next : (List Token → Option (List A)) → Option (A × List Token) → Option (List A)
  next rest none = none
  next rest (some (a, [])) = some (a ∷ [])
  next rest (some (a, comma ∷ ts)) = with_first a (rest ts)
  next rest (some (a, t ∷ ts)) = none

  abbrev terminated_in : (List Token → Option (A × List Token)) → ℕ → List Token → Option (List A)
  terminated_in p f [] = some []
  terminated_in p zero (t ∷ ts) = none
  terminated_in p (suc f) (t ∷ ts) = next (terminated_in p f) (p (t ∷ ts))

  with_first_mono :
      (a : A) (o o' : Option (List A)) (bs : List A)
      → ((cs : List A) → o ≡ some cs → o' ≡ some cs)
      → with_first a o ≡ some bs
      → with_first a o' ≡ some bs
  with_first_mono a none o' bs h e = absurd (ground (arith, e))
  with_first_mono a (some cs) o' bs h e = ap (with_first a) (h cs refl) ∙ e

  next_mono :
      (k k' : List Token → Option (List A)) (o : Option (A × List Token)) (bs : List A)
      → ((ts : List Token) (cs : List A) → k ts ≡ some cs → k' ts ≡ some cs)
      → next k o ≡ some bs
      → next k' o ≡ some bs
  next_mono k k' none bs h e = e
  next_mono k k' (some (a, [])) bs h e = e
  next_mono k k' (some (a, comma ∷ ts)) bs h e = with_first_mono a (k ts) (k' ts) bs (h ts) e
  next_mono k k' (some (a, arrow ∷ ts)) bs h e = e
  next_mono k k' (some (a, fat_arrow ∷ ts)) bs h e = e
  next_mono k k' (some (a, word n ∷ ts)) bs h e = e
  next_mono k k' (some (a, braces body ∷ ts)) bs h e = e

  terminated_in_mono :
      (p : List Token → Option (A × List Token)) (f g : ℕ) (ts : List Token) (bs : List A)
      → f ≤ g
      → terminated_in p f ts ≡ some bs
      → terminated_in p g ts ≡ some bs
  terminated_in_mono p f g [] bs le e = e
  terminated_in_mono p zero g (t ∷ ts) bs le e = absurd (ground (arith, e))
  terminated_in_mono p (suc f) zero (t ∷ ts) bs le e = absurd (omega (arith, le))
  terminated_in_mono p (suc f) (suc g) (t ∷ ts) bs le e =
      next_mono (terminated_in p f) (terminated_in p g) (p (t ∷ ts)) bs
        (λ us cs. terminated_in_mono p f g us cs (omega (arith, le))) e

  terminated_in-more :
      (p : List Token → Option (A × List Token)) (ts rest : List Token) (a : A) (bs : List A)
      → length rest < length ts
      → p ts ≡ some (a, comma ∷ rest)
      → terminated_in p (length rest) rest ≡ some bs
      → terminated_in p (length ts) ts ≡ some (a ∷ bs)
  terminated_in-more p [] rest a bs lt e r = absurd (omega (arith, lt))
  terminated_in-more p (t ∷ ts) rest a bs lt e r =
      ap (next (terminated_in p (length ts))) e
      ∙ ap (with_first a)
          (terminated_in_mono p (length rest) (length ts) rest bs (omega (arith, lt)) r)

  terminated_in-last :
      (p : List Token → Option (A × List Token)) (ts : List Token) (a : A)
      → ts ≢ []
      → p ts ≡ some (a, [])
      → terminated_in p (length ts) ts ≡ some (a ∷ [])
  terminated_in-last p [] a ne e = absurd (ne refl)
  terminated_in-last p (t ∷ ts) a ne e = ap (next (terminated_in p (length ts))) e

abbrev syn : Syn Token ℕ
syn = record {
  is_arrow = is_arrow;
  parse_expr = parse_word;
  parse_ident = parse_word;
  parse_arrow = parse_arrow;
  parse_fat_arrow = parse_fat_arrow;
  braced = braced;
  parse_terminated = λ p ts. terminated_in p (length ts) ts;
}

abbrev laws : SynLaws syn
laws = record {
  arrow = arrow;
  fat_arrow = fat_arrow;
  comma = comma;
  ident = word;
  braces = λ body. braces (packed body);
  print = λ e. word e ∷ [];
  is_arrow_arrow = refl;
  arrow_first = λ ts. refl;
  fat_arrow_first = λ ts. refl;
  ident_first = λ n ts. refl;
  braces_first = λ body ts. ap (λ l. some (l, ts)) (unpacked-packed body);
  expr_last = λ e. refl;
  expr_comma = λ e ts. refl;
  terminated_none = λ p. refl;
  terminated_last = λ p ts a. terminated_in-last p ts a;
  terminated_more = λ p ts rest a bs. terminated_in-more p ts rest a bs;
}

-- Two tasks for executor 1, one for executor 2, and another for executor 1.
abbrev entries : List (ExecutorEntry ℕ)
entries =
    record {
      name = 1;
      tasks = record { freq = 100; func = 7 } ∷ record { freq = 50; func = 8 } ∷ [];
    }
    ∷ record { name = 2; tasks = record { freq = 10; func = 9 } ∷ [] }
    ∷ record { name = 1; tasks = record { freq = 20; func = 6 } ∷ [] }
    ∷ []

task-print_example :
    task syn (terminated syn laws (print_executor syn laws true) false entries)
    ≡ some (statements 0 entries)
task-print_example =
    task-print syn laws true false entries
      (((refl, tt), ((refl, tt), tt)), (((refl, tt), tt), (((refl, tt), tt), tt)))

abbrev scope : Scope ℕ
scope = record { nodes = λ i j. none; executors = λ n. record { head = []; freq = 1000 } }

nano_registers_example :
    (code : List (Statement ℕ)) × (task syn
        (terminated syn laws (print_executor syn laws true) false entries)
      ≡ some code)
    × ((n : ℕ)
        → (perform_all (λ e. e) (λ e. e) code scope).executors n
          ≡ put (λ e. e) (λ e. e) (scope.executors n) (written n entries))
nano_registers_example =
    nano_registers (λ e. e) (λ e. e) syn laws true false entries scope
      (((refl, tt), ((refl, tt), tt)), (((refl, tt), tt), (((refl, tt), tt), tt)))
