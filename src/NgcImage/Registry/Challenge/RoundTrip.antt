-- ===== src/NgcImage/Registry/Challenge/RoundTrip.antt =====
-- A challenge that is written down from its parameters parses back to them.
use mathlib.Core.List as Lists
use text.Mathlib.TextLemmas.{nil-append, cons-append, append-nil, append_assoc}
use Prim.Native.Char.{Char, code}
use cylon_local_infra.Prelude.{
  String, ◌<>◌, Bool, true, false, ◌&&◌, not, [], ◌∷◌, ◌++◌, ◌≡◌, refl, ap, sym, ◌∙◌, arith, ◌==◌,
  string_eq, eqb, all, All, IsUnique, contains,
}
use cylon_local_infra.Prelude.Text.{codes}
use cylon_local_infra.Prelude.Dict.{Dict, keys, insert}
use cylon_local_infra.NgcImage.Registry.Challenge.{
  is_word, one, word, quoted, findall, dict_from, parse_www_auth,
}

ruleset texts = (nil-append, cons-append, append-nil, append_assoc)

-- A name is word characters, and a value has no quote.
abbrev pub is_name : String → Bool
is_name s = not (s == "") && all is_word (codes s)

abbrev pub is_unquoted : String → Bool
is_unquoted s = all (λ c. not (eqb c b'"')) (codes s)

abbrev pub IsPair : String × String → Type 0
IsPair (k, v) = (is_name k ≡ true) × (is_unquoted v ≡ true)

abbrev pair_text : (k v rest : String) → String
pair_text k v rest = k <> ("=\"" <> (v <> ("\"" <> rest)))

-- `k1="v1",k2="v2"`
unfoldable pub params_text : Dict String String → String
params_text [] = ""
params_text ((k, v) ∷ []) = pair_text k v ""
params_text ((k, v) ∷ p ∷ ps) = pair_text k v ("," <> params_text (p ∷ ps))

abbrev pub challenge_text : Dict String String → String
challenge_text ps = "Bearer " <> params_text ps

findall-word :
    (run : String) (c : Char) (s : String)
    → is_word (code c) ≡ true
    → findall (word run) (String.◌∷◌ c s) ≡ findall (word (run <> one c)) s
unfolding findall
findall-word run c s h = rw h refl

findall-inside :
    (name value : String) (c : Char) (s : String)
    → eqb (code c) b'"' ≡ false
    → findall (quoted name value) (String.◌∷◌ c s) ≡ findall (quoted name (value <> one c)) s
unfolding findall
findall-inside name value c s h = rw h refl

findall-close :
    (name value s : String)
    → findall (quoted name value) ("\"" <> s) ≡ (name, value) ∷ findall (word "") s
unfolding findall
findall-close name value s = rw (cons-append _ "" s, nil-append s) refl

findall-run :
    (k run rest : String)
    → all is_word (codes k) ≡ true
    → findall (word run) (k <> rest) ≡ findall (word (run <> k)) rest
unfolding findall
findall-run String.[] run rest h = simp texts
findall-run (String.◌∷◌ c k) run rest h = ground (
  arith,
  findall-word run c (k <> rest),
  findall-run k (run <> one c) rest,
  cons-append c k rest,
  append_assoc run (one c) k,
  cons-append c "" k,
  nil-append k,
)

findall-value :
    (v name value rest : String)
    → is_unquoted v ≡ true
    → findall (quoted name value) (v <> ("\"" <> rest))
      ≡ (name, value <> v) ∷ findall (word "") rest
unfolding findall
findall-value String.[] name value rest h = simp (texts, findall-close)
findall-value (String.◌∷◌ c v) name value rest h = ground (
  arith,
  findall-inside name value c (v <> ("\"" <> rest)),
  findall-value v name (value <> one c) rest,
  cons-append c v ("\"" <> rest),
  append_assoc value (one c) v,
  cons-append c "" v,
  nil-append v,
)

findall-comma : (s : String) → findall (word "") ("," <> s) ≡ findall (word "") s
unfolding findall
findall-comma s = rw (cons-append _ "" s, nil-append s) refl

findall-bearer : (s : String) → findall (word "") ("Bearer " <> s) ≡ findall (word "") s
unfolding findall
findall-bearer s =
    rw
      (
        cons-append _ "earer " s,
        cons-append _ "arer " s,
        cons-append _ "rer " s,
        cons-append _ "er " s,
        cons-append _ "r " s,
        cons-append _ " " s,
        cons-append _ "" s,
        nil-append s,
      )
      refl

insert-fresh :
    (k v : String) (d : Dict String String)
    → contains (keys d) k ≡ false
    → insert k v d ≡ d ++ ((k, v) ∷ [])
unfolding insert
insert-fresh k v [] h = refl
insert-fresh k v ((j, w) ∷ d) h = ground (arith, insert-fresh k v d)

findall-equals :
    (k rest : String)
    → (k == "") ≡ false
    → findall (word k) ("=\"" <> rest) ≡ findall (quoted k "") rest
unfolding findall
findall-equals k rest h =
    rw (cons-append _ "\"" rest, cons-append _ "" rest, nil-append rest, h) refl

findall-pair :
    (k v rest : String)
    → IsPair (k, v)
    → findall (word "") (pair_text k v rest) ≡ (k, v) ∷ findall (word "") rest
findall-pair k v rest (name, value) = ground (
  arith,
  findall-run k "" ("=\"" <> (v <> ("\"" <> rest))),
  nil-append k,
  findall-equals k (v <> ("\"" <> rest)),
  findall-value v k "" rest,
  nil-append v,
)

findall-params : (ps : Dict String String) → All IsPair ps → findall (word "") (params_text ps) ≡ ps
unfolding params_text findall
findall-params [] h = refl
findall-params ((k, v) ∷ []) (pair, _) = findall-pair k v "" pair
findall-params ((k, v) ∷ p ∷ ps) (pair, rest) =
    findall-pair k v _ pair
    ∙ ap (λ l. (k, v) ∷ l) (findall-comma (params_text (p ∷ ps)) ∙ findall-params (p ∷ ps) rest)

keys-append-contains :
    (d : Dict String String) (k v : String) (rest : Dict String String)
    → contains (keys (d ++ ((k, v) ∷ rest))) k ≡ true
keys-append-contains [] k v rest = ground arith
keys-append-contains ((j, w) ∷ d) k v rest = ground (arith, keys-append-contains d k v rest)

-- A key of a longer dict without repetitions is not in its front.
front-fresh :
    (d : Dict String String) (k v : String) (rest : Dict String String)
    → IsUnique (keys (d ++ ((k, v) ∷ rest)))
    → contains (keys d) k ≡ false
front-fresh [] k v rest h = refl
front-fresh ((j, w) ∷ d) k v rest (fresh, unique) =
    ground (arith, keys-append-contains d k v rest, front-fresh d k v rest unique)

dict_from-append :
    (ps d : Dict String String) → IsUnique (keys (d ++ ps)) → dict_from d ps ≡ d ++ ps
unfolding dict_from
dict_from-append [] d h = sym (Lists.append-nil d)
dict_from-append ((k, v) ∷ ps) d h =
    let one_more = d ++ ((k, v) ∷ []) in
    let same : one_more ++ ps ≡ d ++ ((k, v) ∷ ps) = Lists.append_assoc d _ ps in
    ap (λ e. dict_from e ps) (insert-fresh k v d (front-fresh d k v ps h))
    ∙ dict_from-append ps one_more (rw same h)
    ∙ same

-- A challenge that is written down from parameters with different names parses back to them, when
-- every name is made of word characters and no value holds a quote.
pub parse_www_auth-challenge_text :
    (ps : Dict String String)
    → All IsPair ps
    → IsUnique (keys ps)
    → parse_www_auth (challenge_text ps) ≡ ps
unfolding parse_www_auth
parse_www_auth-challenge_text ps pairs unique =
    ap (dict_from []) (findall-bearer (params_text ps) ∙ findall-params ps pairs)
    ∙ dict_from-append ps [] unique
