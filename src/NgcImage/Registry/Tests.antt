-- ===== src/NgcImage/Registry/Tests.antt =====
-- A registry that wants a token and serves two pages of tags.
use cylon_local_infra.Prelude.{
  String, ◌≡◌, refl, false, none, some, List, [], ◌∷◌, contains, string_eq, IsUnique, arith, ◌==◌,
  if◌then◌else◌,
}
use cylon_local_infra.Prelude.Dict.{Dict, lookup, insert}
use cylon_local_infra.Prelude.State.{◌>>=◌}
use cylon_local_infra.Prelude.Json.{
  Json, text, array, object, nil, item, end, field, field_of, truth, str,
}
use cylon_local_infra.Prelude.Text.{lstrip, starts_with, drop_chars}
use cylon_local_infra.NgcImage.Config.{ImageSpec}
use cylon_local_infra.NgcImage.Registry.Token.{
  Http, Reply, answered, http_error, get_bearer_token, after_probe, answer_challenge, http_get,
  response_of, ok_body,
}
use cylon_local_infra.NgcImage.Registry.{
  fetched, registry, name, fetch_page, tags_of, texts_of, authorized, first_url, fetch_tags,
}
use cylon_local_infra.NgcImage.Registry.Challenge.{findall, dict_from, parse_www_auth}
use cylon_local_infra.NgcImage.Registry.Challenge.RoundTrip.{
  challenge_text, params_text, parse_www_auth-challenge_text,
}
use cylon_local_infra.NgcImage.Registry.Link.{
  split_commas, until_closed, match_next, first_next, next_link,
}
use cylon_local_infra.NgcImage.Registry.Pages.{Serves, at_end, page, fetch_tags-Serves}

abbrev params : Dict String String
params = ("realm", "https://nvcr.io/proxy_auth") ∷ ("service", "nvcr.io") ∷ []

parse_www_auth-challenge_text_example : parse_www_auth (challenge_text params) ≡ params
unfolding string_eq
parse_www_auth-challenge_text_example =
    parse_www_auth-challenge_text params ((refl, refl), ((refl, refl), tt)) (refl, (refl, tt))

next_of_two :
    first_next (split_commas "<a>; rel=\"prev\", </v2/x?last=1> ; rel=\"next\"")
    ≡ some "/v2/x?last=1"
unfolding first_next split_commas match_next until_closed lstrip starts_with drop_chars string_eq
next_of_two = refl

abbrev list_url : String
list_url = "https://nvcr.io/v2/nvidia/vllm/tags/list"

-- The body of a page is the tag itself.
abbrev reply_to : (url : String) → Reply
reply_to url =
    if url == "https://nvcr.io/v2/"
    then http_error 401 (("www-authenticate", challenge_text params) ∷ []) ""
    else if url == list_url
    then answered 200 (("link", "<p2>; rel=\"next\"") ∷ []) "1.0"
    else if url == "p2"
    then answered 200 [] "1.1"
    else answered 200 [] "token"

abbrev body_of : String → Json
body_of body =
    if body == "token"
    then object (field "token" (text "t0") end)
    else object (field "tags" (array (item (text body) nil)) end)

abbrev http : Http
http = record {
  World = Unit;
  urlopen = λ w url headers. (reply_to url, w);
  lower = λ s. s;
  urlencode = λ q. "q";
  urljoin = λ base url. url;
  loads = λ body. some (body_of body);
  repr = λ v. "";
}

abbrev spec : ImageSpec
spec = record {
  repo = "nvcr.io/nvidia/vllm";
  tag_pattern = ".*";
  keep_latest = 2;
  always_keep = [];
  prune_stale = false;
}

named : name spec ≡ some "nvidia/vllm"
unfolding name
named = refl

given : (get_bearer_token http (registry spec) "repository:nvidia/vllm:pull" tt).0 ≡ some "t0"
unfolding get_bearer_token after_probe answer_challenge http_get response_of ok_body registry
    parse_www_auth findall dict_from insert lookup params_text field_of truth str string_eq ◌>>=◌
given = refl

first_page : (fetch_page http (authorized http "t0") list_url tt).0 ≡ some ("1.0" ∷ [], some "p2")
unfolding fetch_page http_get response_of ok_body tags_of texts_of field_of lookup insert next_link
    first_next split_commas match_next until_closed lstrip starts_with drop_chars string_eq ◌>>=◌
first_page = refl

second_page : (fetch_page http (authorized http "t0") "p2" tt).0 ≡ some ("1.1" ∷ [], none)
unfolding fetch_page http_get response_of ok_body tags_of texts_of field_of lookup insert next_link
    first_next split_commas match_next until_closed lstrip starts_with drop_chars string_eq ◌>>=◌
second_page = refl

served :
    Serves http
      (authorized http "t0")
      2
      tt
      (some (first_url http (registry spec) "nvidia/vllm"))
      ("1.0" ∷ "1.1" ∷ [])
unfolding registry string_eq
served = page refl first_page (page refl second_page at_end)

fetch_tags-Serves_example :
    (result : List String) × ((fetch_tags http 3 spec tt).0 ≡ fetched result)
    × ((t : String) → contains result t ≡ contains ("1.0" ∷ "1.1" ∷ []) t)
    × IsUnique result
fetch_tags-Serves_example =
    fetch_tags-Serves http spec tt "nvidia/vllm" "t0" 2 3 ("1.0" ∷ "1.1" ∷ []) named given served
      (omega arith)
