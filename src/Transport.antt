-- ===== src/Transport.antt =====
-- git_transport.py, the repository of a GitBus: envelopes and the lane files that hold one JSON
-- line for each. `git` itself is outside: commits and pushes change no lane of the clone, and a
-- fetch is whatever repository the caller reads next.
pub mod Collect
pub mod Publish
pub mod Drain
use Prim.Native.String.{◌++◌ as text_append}
use mcp_dispatch.Base.{ℕ, String, Option, none, some, List, [], ◌∷◌, ◌++◌, map}
use mcp_dispatch.Base.Dict.{Dict, get, put}
use mcp_dispatch.Base.Sort.{sort_by}
use mcp_dispatch.Message.{Message}

-- An envelope's body: a JSON object, read as a message, or any other JSON value.
pub data Body : Type 0 where
  object : Message → Body
  other_json : Body

-- The header of an envelope, less `version` and `sig`, which nothing reads. `ts` is the number of
-- seconds that its text stands for.
pub record Envelope : Type 0 where
  pub type : String
  pub from : String  -- `from_`
  pub body : Body
  pub to : Option String
  pub chan : Option String
  pub key : Option String
  pub id : String
  pub ts : ℕ
  pub seq : ℕ
  pub ttl : Option ℕ

-- A line of a lane, by what `Envelope.from_json` makes of it: white space; JSON that does not
-- parse, or a missing key, which the reader skips; a line on which from_json raises something else
-- (TypeError on a JSON value that is no object, ValueError on a `seq` that is no number); or an
-- envelope.
pub data Line : Type 0 where
  blank malformed wrong_type : Line
  entry : Envelope → Line

-- The files lanes/*.jsonl by their stem, and channels/*/*.jsonl by channel and stem.
pub record Repo : Type 0 where
  pub lanes : Dict (List Line)
  pub channels : Dict (Dict (List Line))

-- A file of the repository: its path from the root, and its lines.
abbrev pub LaneFile : Type 0
LaneFile = String × List Line

-- The files of one directory in the order of sorted() on their names, by their paths.
unfoldable pub files_in : String → Dict (List Line) → List LaneFile
files_in dir files =
    map (λ (f : LaneFile). (text_append dir (text_append f.0 ".jsonl"), f.1))
      (sort_by (λ (f : LaneFile). text_append f.0 ".jsonl") files)

unfoldable pub channel_files : List (String × Dict (List Line)) → List LaneFile
unfolding files_in
channel_files [] = []
channel_files ((chan, files) ∷ chans) =
    files_in (text_append "channels/" (text_append chan "/")) files ++ channel_files chans

-- GitBus._all_lane_files, each with its lines. Paths are sorted by their parts.
unfoldable pub all_lane_files : Repo → List LaneFile
unfolding channel_files
all_lane_files repo =
    files_in "lanes/" repo.lanes
    ++ channel_files (sort_by (λ (c : String × Dict (List Line)). c.0) repo.channels)

-- The lines of a file that may be missing, and the files of a directory that may be.
abbrev pub or_empty {ℓ} : {A : Type ℓ} → Option (List A) → List A
or_empty none = []
or_empty (some xs) = xs

-- The lines of GitBus._my_lane(chan) of an agent. `if chan` takes no text and an empty one alike.
unfoldable pub my_lane : Repo → String → Option String → List Line
my_lane repo agent_id none = or_empty (get repo.lanes agent_id)
my_lane repo agent_id (some chan) = or_empty (get (or_empty (get repo.channels chan)) agent_id)

-- The repository with one line more at the end of that lane.
unfoldable pub append_line : Repo → String → Option String → Line → Repo
append_line repo agent_id none line = record repo {
  lanes = put repo.lanes agent_id (or_empty (get repo.lanes agent_id) ++ line ∷ []);
}
append_line repo agent_id (some chan) line =
    let files = or_empty (get repo.channels chan) in
    record repo {
      channels =
          put repo.channels chan (put files agent_id (or_empty (get files agent_id) ++ line ∷ []));
    }
