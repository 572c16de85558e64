-- ===== src/Fetch/Examples.antt =====
-- Tests of internal/fetch, and its theorems at concrete inputs.
use ardvark.Prelude.{
  ℕ, zero, suc, ◌≡◌, refl, true, false, not, [], ◌∷◌, Option, none, some, Text, codes, text_eq,
  is_empty, ascii_text, if◌then◌else◌,
}
use ardvark.Frontier.Db.{ok, err}
use ardvark.Fetch.{
  Fetched, Answer, response, unreachable, Outside, Settings, Client, robots_for_origin, robots_for,
  permits, get,
}
use ardvark.Fetch.Robots.{Sound, get-Sound}

abbrev page : Text → Text → Answer
page url body =
    response (record { url = url; status = 200; content_type = codes "text/plain"; body = body })

abbrev lost : Answer
lost =
    unreachable (record { timeout = true; dns = false; deadline = false; text = codes "timeout" })

-- A robots.txt is the one path that it bars, and cannot be read if it is empty. The first request is
-- answered, and the second, and then nothing is.
abbrev site : Text → Outside Text
site robots = record {
  parse_url = λ path. ok (record { scheme = codes "http"; host = codes "h"; path = path });
  answer = answers;
  from_bytes = λ s. if is_empty s then err (codes "unreadable") else ok s;
  test = λ barred agent path. not (text_eq barred path);
  unicode = ascii_text;
}
  where
    answers : ℕ → Text → Answer
    answers zero url = page url robots
    answers (suc zero) url = page url (codes "page")
    answers (suc (suc n)) url = lost

abbrev polite : Settings
polite = record { respect_robots_txt = true; max_body_bytes = 0; user_agent = [] }

abbrev fresh : Client Text
fresh = record { robots_cache = λ k. none; raw_robots = λ k. none; requests = [] }

abbrev informed : Client Text
informed = (robots_for_origin (site (codes "/x")) polite (codes "http") (codes "h") fresh).1

abbrev asked_once : Client Text
asked_once = record fresh { requests = codes "http://h/robots.txt" ∷ [] }

abbrev fetched : Fetched
fetched = record {
  url = codes "/y";
  status = 200;
  content_type = codes "text/plain";
  body = codes "page";
}

abbrev served : Client Text
served = (get (site (codes "/x")) polite (codes "/y") fresh).1

get-Sound_example :
    ((robots : Option Text) × (served.robots_cache (codes "http://h") ≡ some robots)
      × (permits
            (site (codes "/x"))
            polite
            robots
            (record { scheme = codes "http"; host = codes "h"; path = codes "/y" })
          ≡ true))
    × Sound (site (codes "/x")) polite fetched
unfolding get robots_for robots_for_origin text_eq
get-Sound_example =
    get-Sound (site (codes "/x")) polite (codes "/y")
      (record { scheme = codes "http"; host = codes "h"; path = codes "/y" }) fresh served fetched
      refl refl refl refl
