-- ===== src/Tests/Urls.antt =====
-- src/util/parseurl.c on one URL.
use lib_open_rtmp.Base.{ℕ, ◌≤◌, Bool, true, none, some, List, [], ◌∷◌, ◌≡◌, refl, length, leb}
use lib_open_rtmp.Util.Parseurl.Parser.{
  owned, freed, Parser, whole, strict, host_part, any_space, all_digits, handle_space, parse_text,
  parse_authority, parse_host, parse_user, behind_host, behind_authority, parse_path, verify,
  verify_parts, parseurl_create, parseurl_parse,
}
use lib_open_rtmp.Util.Parseurl.Text.{Parts, url_length, url_text, to_url, parseurl_set}
use lib_open_rtmp.Util.Parseurl.Find.{avoids, all_scheme_chars}
use lib_open_rtmp.Util.Parseurl.{
  is_among, parseurl_scheme, has_authority, parseurl_user, parseurl_host, parseurl_path, strpbrk,
}
use lib_open_rtmp.Util.Parseurl.Proper.{IsProper}
use lib_open_rtmp.Util.Parseurl.RoundTrip.{from_parts, parseurl_parse-url_text}
use lib_open_rtmp.Util.Parseurl.Bounds.{length-url_text}
use lib_open_rtmp.Util.Parseurl.Update.{update, parseurl_set-update}
use lib_open_rtmp.Util.Parseurl.Accepted.{Accepts, parseurl_parse-Accepts}
use lib_open_rtmp.Util.Parseurl.Stale.{parseurl_parse_stale}
use Prim.Native.String.{String}
use Prim.Native.Char.{code}

-- The bytes of an ASCII text.
abbrev bytes : String → List ℕ
bytes String.[] = []
bytes (String.◌∷◌ c s) = code c ∷ bytes s

abbrev stream_parts : Parts
stream_parts = record {
  scheme = some (bytes "rtmp");
  user = some (bytes "bob");
  password = some (bytes "s:c");
  host = some (bytes "h.tv");
  port = some (bytes "1935");
  path = some (bytes "/live");
  query = some (bytes "k=1");
  fragment = none;
}

-- What `malloc` grants.
abbrev room_for : ℕ → Bool
room_for n = leb n 1000

stream_text : url_text stream_parts ≡ bytes "rtmp://bob:s:c@h.tv:1935/live?k=1"
unfolding url_text
stream_text = refl

stream_parts-IsProper : IsProper stream_parts
unfolding avoids url_text any_space all_scheme_chars is_among all_digits
stream_parts-IsProper = record {
  scheme = (refl, refl);
  authority = (refl, refl, (refl, refl), refl);
  path = (refl, refl);
  query = refl;
  no_blanks = refl;
}

parseurl_parse-url_text_example :
    parseurl_parse room_for parseurl_create (some (url_text stream_parts)) strict
    ≡ some (true, from_parts none stream_parts)
unfolding url_text
parseurl_parse-url_text_example =
    parseurl_parse-url_text room_for parseurl_create stream_parts strict stream_parts-IsProper
      (record {
        scheme = tt;
        user = tt;
        password = tt;
        host = tt;
        port = tt;
        path = tt;
        query = tt;
        fragment = refl;
      })
      refl

length-url_text_example : length (url_text stream_parts) ≤ url_length stream_parts
length-url_text_example = length-url_text stream_parts

-- The same URL at another host.
abbrev moved_parts : Parts
moved_parts = update host_part (some (bytes "b.tv")) stream_parts

moved_parts-IsProper : IsProper moved_parts
unfolding avoids url_text any_space all_scheme_chars is_among all_digits
moved_parts-IsProper = record {
  scheme = (refl, refl);
  authority = (refl, refl, (refl, refl), refl);
  path = (refl, refl);
  query = refl;
  no_blanks = refl;
}

parseurl_set-update_example :
    parseurl_set room_for (from_parts none stream_parts) host_part (some (bytes "b.tv"))
    ≡ some (true, from_parts none moved_parts)
unfolding url_text url_length
parseurl_set-update_example =
    parseurl_set-update room_for (from_parts none stream_parts) (some (bytes "b.tv")) refl host_part
      refl moved_parts-IsProper refl refl

parseurl_parse-Accepts_example :
    Accepts (parseurl_parse room_for parseurl_create (some (bytes " rtmp://h/a ")) whole)
parseurl_parse-Accepts_example =
    parseurl_parse-Accepts room_for parseurl_create (some (bytes " rtmp://h/a ")) whole refl refl

-- A parser that has parsed a URL with a fragment.
abbrev marked : Parser
marked = record (from_parts none stream_parts) { fragment = owned (bytes "top") }

parseurl_parse_stale_example :
    (q : Parser) × (parseurl_parse room_for marked (some (url_text stream_parts)) whole
      ≡ some (true, q))
    × (q.fragment ≡ freed)
    × (to_url room_for q ≡ none)
unfolding url_text
parseurl_parse_stale_example =
    parseurl_parse_stale room_for marked stream_parts whole (bytes "top") stream_parts-IsProper tt
      tt refl refl refl

-- What is accepted of a URL with blanks around it.
trimmed_url :
    parseurl_parse room_for parseurl_create (some (bytes " rtmp://h/a ")) whole
    ≡ some (
      true,
      record parseurl_create {
        scheme = owned (bytes "rtmp");
        host = owned (bytes "h");
        path = owned (bytes "/a");
      },
    )
unfolding parseurl_parse handle_space parse_text parse_authority parse_host parse_user behind_host
    behind_authority parse_path verify verify_parts parseurl_scheme has_authority parseurl_user
    parseurl_host parseurl_path strpbrk
trimmed_url = refl
