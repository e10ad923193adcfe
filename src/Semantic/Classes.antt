-- ===== src/Semantic/Classes.antt =====
-- oversight_core/synonyms_v2.py: the expanded table of synonym classes.
use oversight.Prelude.{List, [], ◌∷◌, ◌++◌, codes}
use oversight.Semantic.Case.{Text}

-- `SynonymClass`
pub record SynonymClass : Type 0 where
  pub variants : List Text
  pub pos : Text

three : Text → Text → Text → Text → SynonymClass
three a b c pos = record { variants = a ∷ b ∷ c ∷ []; pos = pos }

verbs : List SynonymClass
unfolding three
verbs =
    three (codes "begin") (codes "start") (codes "commence") (codes "verb")
    ∷ three (codes "end") (codes "finish") (codes "conclude") (codes "verb")
    ∷ three (codes "use") (codes "utilize") (codes "employ") (codes "verb")
    ∷ three (codes "make") (codes "create") (codes "produce") (codes "verb")
    ∷ three (codes "get") (codes "obtain") (codes "acquire") (codes "verb")
    ∷ three (codes "find") (codes "locate") (codes "identify") (codes "verb")
    ∷ three (codes "show") (codes "display") (codes "present") (codes "verb")
    ∷ three (codes "tell") (codes "inform") (codes "notify") (codes "verb")
    ∷ three (codes "give") (codes "provide") (codes "supply") (codes "verb")
    ∷ three (codes "help") (codes "assist") (codes "aid") (codes "verb")
    ∷ three (codes "think") (codes "believe") (codes "consider") (codes "verb")
    ∷ three (codes "know") (codes "understand") (codes "recognize") (codes "verb")
    ∷ three (codes "see") (codes "observe") (codes "notice") (codes "verb")
    ∷ three (codes "want") (codes "desire") (codes "need") (codes "verb")
    ∷ three (codes "look") (codes "appear") (codes "seem") (codes "verb")
    ∷ three (codes "ask") (codes "request") (codes "query") (codes "verb")
    ∷ three (codes "send") (codes "transmit") (codes "deliver") (codes "verb")
    ∷ three (codes "allow") (codes "permit") (codes "enable") (codes "verb")
    ∷ three (codes "stop") (codes "halt") (codes "cease") (codes "verb")
    ∷ three (codes "continue") (codes "proceed") (codes "persist") (codes "verb")
    ∷ three (codes "try") (codes "attempt") (codes "endeavor") (codes "verb")
    ∷ three (codes "change") (codes "modify") (codes "alter") (codes "verb")
    ∷ three (codes "add") (codes "append") (codes "include") (codes "verb")
    ∷ three (codes "remove") (codes "delete") (codes "eliminate") (codes "verb")
    ∷ three (codes "check") (codes "verify") (codes "confirm") (codes "verb")
    ∷ three (codes "review") (codes "examine") (codes "evaluate") (codes "verb")
    ∷ three (codes "agree") (codes "concur") (codes "consent") (codes "verb")
    ∷ three (codes "decide") (codes "determine") (codes "resolve") (codes "verb")
    ∷ three (codes "require") (codes "need") (codes "demand") (codes "verb")
    ∷ three (codes "contain") (codes "include") (codes "hold") (codes "verb")
    ∷ three (codes "return") (codes "yield") (codes "give back") (codes "verb")
    ∷ three (codes "create") (codes "generate") (codes "build") (codes "verb")
    ∷ three (codes "destroy") (codes "eliminate") (codes "eradicate") (codes "verb")
    ∷ three (codes "improve") (codes "enhance") (codes "upgrade") (codes "verb")
    ∷ three (codes "protect") (codes "safeguard") (codes "defend") (codes "verb")
    ∷ three (codes "discuss") (codes "address") (codes "cover") (codes "verb")
    ∷ three (codes "explain") (codes "clarify") (codes "describe") (codes "verb")
    ∷ three (codes "propose") (codes "suggest") (codes "recommend") (codes "verb")
    ∷ three (codes "demonstrate") (codes "show") (codes "prove") (codes "verb")
    ∷ three (codes "achieve") (codes "accomplish") (codes "attain") (codes "verb")
    ∷ three (codes "manage") (codes "handle") (codes "administer") (codes "verb")
    ∷ three (codes "develop") (codes "build") (codes "engineer") (codes "verb")
    ∷ three (codes "establish") (codes "set up") (codes "institute") (codes "verb")
    ∷ three (codes "support") (codes "back") (codes "endorse") (codes "verb")
    ∷ three (codes "reject") (codes "refuse") (codes "decline") (codes "verb")
    ∷ three (codes "reduce") (codes "decrease") (codes "lower") (codes "verb")
    ∷ three (codes "increase") (codes "raise") (codes "boost") (codes "verb")
    ∷ three (codes "operate") (codes "run") (codes "function") (codes "verb")
    ∷ three (codes "execute") (codes "perform") (codes "run") (codes "verb")
    ∷ three (codes "investigate") (codes "examine") (codes "research") (codes "verb")
    ∷ []

adjectives : List SynonymClass
unfolding three
adjectives =
    three (codes "big") (codes "large") (codes "substantial") (codes "adj")
    ∷ three (codes "small") (codes "tiny") (codes "minor") (codes "adj")
    ∷ three (codes "fast") (codes "quick") (codes "rapid") (codes "adj")
    ∷ three (codes "slow") (codes "gradual") (codes "deliberate") (codes "adj")
    ∷ three (codes "important") (codes "critical") (codes "significant") (codes "adj")
    ∷ three (codes "hard") (codes "difficult") (codes "challenging") (codes "adj")
    ∷ three (codes "easy") (codes "simple") (codes "straightforward") (codes "adj")
    ∷ three (codes "good") (codes "excellent") (codes "effective") (codes "adj")
    ∷ three (codes "bad") (codes "poor") (codes "inferior") (codes "adj")
    ∷ three (codes "new") (codes "recent") (codes "current") (codes "adj")
    ∷ three (codes "old") (codes "prior") (codes "previous") (codes "adj")
    ∷ three (codes "common") (codes "typical") (codes "standard") (codes "adj")
    ∷ three (codes "rare") (codes "unusual") (codes "uncommon") (codes "adj")
    ∷ three (codes "safe") (codes "secure") (codes "protected") (codes "adj")
    ∷ three (codes "dangerous") (codes "risky") (codes "hazardous") (codes "adj")
    ∷ three (codes "correct") (codes "accurate") (codes "right") (codes "adj")
    ∷ three (codes "wrong") (codes "incorrect") (codes "mistaken") (codes "adj")
    ∷ three (codes "clear") (codes "obvious") (codes "evident") (codes "adj")
    ∷ three (codes "unclear") (codes "vague") (codes "ambiguous") (codes "adj")
    ∷ three (codes "strong") (codes "robust") (codes "powerful") (codes "adj")
    ∷ three (codes "weak") (codes "fragile") (codes "limited") (codes "adj")
    ∷ three (codes "full") (codes "complete") (codes "entire") (codes "adj")
    ∷ three (codes "empty") (codes "vacant") (codes "bare") (codes "adj")
    ∷ three (codes "open") (codes "available") (codes "accessible") (codes "adj")
    ∷ three (codes "closed") (codes "sealed") (codes "restricted") (codes "adj")
    ∷ three (codes "visible") (codes "apparent") (codes "observable") (codes "adj")
    ∷ three (codes "hidden") (codes "concealed") (codes "obscured") (codes "adj")
    ∷ three (codes "public") (codes "open") (codes "unrestricted") (codes "adj")
    ∷ three (codes "private") (codes "confidential") (codes "restricted") (codes "adj")
    ∷ three (codes "complete") (codes "finished") (codes "done") (codes "adj")
    ∷ three (codes "partial") (codes "incomplete") (codes "limited") (codes "adj")
    ∷ three (codes "useful") (codes "helpful") (codes "valuable") (codes "adj")
    ∷ three (codes "useless") (codes "pointless") (codes "ineffective") (codes "adj")
    ∷ three (codes "interesting") (codes "engaging") (codes "compelling") (codes "adj")
    ∷ three (codes "boring") (codes "dull") (codes "tedious") (codes "adj")
    ∷ three (codes "early") (codes "initial") (codes "preliminary") (codes "adj")
    ∷ three (codes "late") (codes "delayed") (codes "overdue") (codes "adj")
    ∷ three (codes "possible") (codes "feasible") (codes "viable") (codes "adj")
    ∷ three (codes "impossible") (codes "unfeasible") (codes "impractical") (codes "adj")
    ∷ three (codes "normal") (codes "typical") (codes "regular") (codes "adj")
    ∷ three (codes "abnormal") (codes "unusual") (codes "atypical") (codes "adj")
    ∷ three (codes "high") (codes "elevated") (codes "significant") (codes "adj")
    ∷ three (codes "low") (codes "reduced") (codes "minimal") (codes "adj")
    ∷ []

adverbs : List SynonymClass
unfolding three
adverbs =
    three (codes "quickly") (codes "rapidly") (codes "swiftly") (codes "adv")
    ∷ three (codes "slowly") (codes "gradually") (codes "steadily") (codes "adv")
    ∷ three (codes "carefully") (codes "cautiously") (codes "thoroughly") (codes "adv")
    ∷ three (codes "often") (codes "frequently") (codes "regularly") (codes "adv")
    ∷ three (codes "rarely") (codes "seldom") (codes "infrequently") (codes "adv")
    ∷ three (codes "usually") (codes "typically") (codes "generally") (codes "adv")
    ∷ three (codes "sometimes") (codes "occasionally") (codes "periodically") (codes "adv")
    ∷ three (codes "always") (codes "consistently") (codes "invariably") (codes "adv")
    ∷ three (codes "never") (codes "not ever") (codes "at no time") (codes "adv")
    ∷ three (codes "clearly") (codes "obviously") (codes "plainly") (codes "adv")
    ∷ three (codes "exactly") (codes "precisely") (codes "specifically") (codes "adv")
    ∷ three (codes "approximately") (codes "roughly") (codes "around") (codes "adv")
    ∷ three (codes "completely") (codes "entirely") (codes "fully") (codes "adv")
    ∷ three (codes "partially") (codes "partly") (codes "somewhat") (codes "adv")
    ∷ three (codes "immediately") (codes "instantly") (codes "promptly") (codes "adv")
    ∷ three (codes "eventually") (codes "ultimately") (codes "finally") (codes "adv")
    ∷ three (codes "recently") (codes "lately") (codes "newly") (codes "adv")
    ∷ three (codes "currently") (codes "presently") (codes "now") (codes "adv")
    ∷ three (codes "previously") (codes "formerly") (codes "earlier") (codes "adv")
    ∷ three (codes "easily") (codes "readily") (codes "effortlessly") (codes "adv")
    ∷ []

nouns : List SynonymClass
unfolding three
nouns =
    three (codes "problem") (codes "issue") (codes "concern") (codes "noun")
    ∷ three (codes "answer") (codes "response") (codes "reply") (codes "noun")
    ∷ three (codes "question") (codes "query") (codes "inquiry") (codes "noun")
    ∷ three (codes "idea") (codes "concept") (codes "notion") (codes "noun")
    ∷ three (codes "plan") (codes "strategy") (codes "approach") (codes "noun")
    ∷ three (codes "result") (codes "outcome") (codes "consequence") (codes "noun")
    ∷ three (codes "method") (codes "approach") (codes "technique") (codes "noun")
    ∷ three (codes "goal") (codes "objective") (codes "aim") (codes "noun")
    ∷ three (codes "change") (codes "modification") (codes "alteration") (codes "noun")
    ∷ three (codes "system") (codes "framework") (codes "structure") (codes "noun")
    ∷ three (codes "process") (codes "procedure") (codes "workflow") (codes "noun")
    ∷ three (codes "feature") (codes "function") (codes "capability") (codes "noun")
    ∷ three (codes "effect") (codes "impact") (codes "influence") (codes "noun")
    ∷ three (codes "cause") (codes "reason") (codes "source") (codes "noun")
    ∷ three (codes "example") (codes "instance") (codes "case") (codes "noun")
    ∷ three (codes "detail") (codes "particular") (codes "specific") (codes "noun")
    ∷ three (codes "summary") (codes "overview") (codes "synopsis") (codes "noun")
    ∷ three (codes "notice") (codes "notification") (codes "alert") (codes "noun")
    ∷ three (codes "record") (codes "log") (codes "entry") (codes "noun")
    ∷ three (codes "report") (codes "document") (codes "write-up") (codes "noun")
    ∷ three (codes "data") (codes "information") (codes "content") (codes "noun")
    ∷ three (codes "value") (codes "amount") (codes "quantity") (codes "noun")
    ∷ three (codes "location") (codes "place") (codes "site") (codes "noun")
    ∷ three (codes "time") (codes "moment") (codes "instant") (codes "noun")
    ∷ three (codes "benefit") (codes "advantage") (codes "gain") (codes "noun")
    ∷ three (codes "risk") (codes "hazard") (codes "threat") (codes "noun")
    ∷ three (codes "error") (codes "mistake") (codes "flaw") (codes "noun")
    ∷ three (codes "need") (codes "requirement") (codes "necessity") (codes "noun")
    ∷ three (codes "request") (codes "application") (codes "petition") (codes "noun")
    ∷ three (codes "opportunity") (codes "chance") (codes "possibility") (codes "noun")
    ∷ []

connectors : List SynonymClass
unfolding three
connectors =
    three (codes "however") (codes "nevertheless") (codes "nonetheless") (codes "conj")
    ∷ three (codes "therefore") (codes "consequently") (codes "thus") (codes "conj")
    ∷ three (codes "also") (codes "additionally") (codes "furthermore") (codes "conj")
    ∷ three (codes "but") (codes "yet") (codes "though") (codes "conj")
    ∷ three (codes "because") (codes "since") (codes "as") (codes "conj")
    ∷ three (codes "although") (codes "while") (codes "whereas") (codes "conj")
    ∷ three (codes "similarly") (codes "likewise") (codes "comparably") (codes "conj")
    ∷ three (codes "instead") (codes "rather") (codes "alternatively") (codes "conj")
    ∷ []

unfoldable pub all_classes : List SynonymClass
unfolding verbs adjectives adverbs nouns connectors
all_classes = verbs ++ (adjectives ++ (adverbs ++ (nouns ++ connectors)))
