-- ===== src/MainConfig/Tables.antt =====
-- MainConfig.py, the table `_defaults`.
use free_tak_server.Base.{String, str_append, true, false, [], ◌∷◌}
use free_tak_server.MainConfig.Values.{
  Ty, str_type, bool_type, int_type, list_type, Value, text, boolean, integer, items, path, Setting,
  Settings,
}

-- What the module finds when it is loaded: `PERSISTENCE_PATH`, without a slash at its end,
-- `MAINPATH`, `_ip` and the random node id.
pub record Host : Type 0 where
  pub persistence : String
  pub main : String
  pub ip : String
  pub node_id : String

abbrev pub fts_version : String
fts_version = "FreeTAKServer-2.2.1"

abbrev pub api_version : String
api_version = "3"

abbrev pub setting : Value → Ty → Setting
setting v t = record { default = v; type = t; readonly = false }

abbrev pub fixed : Value → Ty → Setting
fixed v t = record { default = v; type = t; readonly = true }

-- `_defaults`
unfoldable pub _defaults : Host → Settings
_defaults host =
    ("version", fixed (text fts_version) str_type)
    ∷ ("APIVersion", fixed (text api_version) str_type)
    ∷ ("SecretKey", setting (text "vnkdjnfjknfl1232#") str_type)
    ∷ ("nodeID", setting (text (host.node_id)) str_type)
    ∷ ("OptimizeAPI", setting (boolean true) bool_type)
    ∷ ("DataReceptionBuffer", setting (integer false 1024) int_type)
    ∷ ("MaxReceptionTime", setting (integer false 4) int_type)
    ∷ ("LogLevel", setting (text "info") str_type)
    ∷ (
      "UserPersistencePath",
      setting (path (str_append (host.persistence) "/user_persistence.txt")) str_type,
    )
    ∷ ("MainLoopDelay", setting (integer false 100) int_type)
    ∷ ("CoTServicePort", setting (integer false 8087) int_type)
    ∷ ("SSLCoTServicePort", setting (integer false 8089) int_type)
    ∷ ("HTTPSTakAPIPort", setting (integer false 8443) int_type)
    ∷ ("HTTPTakAPIPort", setting (integer false 8080) int_type)
    ∷ ("DataPackageServiceDefaultIP", setting (text (host.ip)) str_type)
    ∷ ("UserConnectionIP", setting (text (host.ip)) str_type)
    ∷ ("APIPort", setting (integer false 19023) int_type)
    ∷ ("FederationPort", setting (integer false 9000) int_type)
    ∷ ("APIIP", setting (text "0.0.0.0") str_type)
    ∷ ("CLIIP", setting (text "127.0.0.1") str_type)
    ∷ ("AllowCLIIPs", setting (items ("127.0.0.1" ∷ [])) list_type)
    ∷ ("SaveCoTToDB", setting (boolean true) bool_type)
    ∷ ("DBFilePath", setting (text (str_append (host.persistence) "/FTSDataBase.db")) str_type)
    ∷ ("MainPath", setting (path (host.main)) str_type)
    ∷ ("certsPath", setting (path (str_append (host.persistence) "/certs")) str_type)
    ∷ (
      "EnterpriseSyncPath",
      setting (path (str_append (host.persistence) "/enterprise_sync")) str_type,
    )
    ∷ ("ExCheckMainPath", setting (path (str_append (host.persistence) "/ExCheck")) str_type)
    ∷ (
      "ExCheckFilePath",
      setting (path (str_append (host.persistence) "/ExCheck/template")) str_type,
    )
    ∷ (
      "ExCheckChecklistFilePath",
      setting (path (str_append (host.persistence) "/ExCheck/checklist")) str_type,
    )
    ∷ (
      "DataPackageFilePath",
      setting (path (str_append (host.persistence) "/FreeTAKServerDataPackageFolder")) str_type,
    )
    ∷ ("LogFilePath", setting (path (str_append (host.persistence) "/Logs")) str_type)
    ∷ ("federationKeyPassword", setting (text "defaultpass") str_type)
    ∷ ("keyDir", setting (path (str_append (host.persistence) "/certs/server.key")) str_type)
    ∷ ("pemDir", setting (path (str_append (host.persistence) "/certs/server.pem")) str_type)
    ∷ ("testPem", setting (path (str_append (host.persistence) "/certs/server.key")) str_type)
    ∷ ("testKey", setting (path (str_append (host.persistence) "/certs/server.pem")) str_type)
    ∷ (
      "unencryptedKey",
      setting (path (str_append (host.persistence) "/certs/server.key.unencrypted")) str_type,
    )
    ∷ ("p12Dir", setting (path (str_append (host.persistence) "/certs/server.p12")) str_type)
    ∷ ("CA", setting (path (str_append (host.persistence) "/certs/ca.pem")) str_type)
    ∷ ("CAkey", setting (path (str_append (host.persistence) "/certs/ca.key")) str_type)
    ∷ (
      "federationCert",
      setting (path (str_append (host.persistence) "/certs/server.pem")) str_type,
    )
    ∷ ("federationKey", setting (path (str_append (host.persistence) "/certs/server.key")) str_type)
    ∷ ("password", setting (text "supersecret") str_type)
    ∷ ("websocketkey", setting (text "YourWebsocketKey") str_type)
    ∷ ("CRLFile", setting (path (str_append (host.persistence) "/certs/FTS_CRL.json")) str_type)
    ∷ (
      "ConnectionMessage",
      setting
          (text (
            str_append "Welcome to FreeTAKServer "
              (str_append fts_version ". The Parrot is not dead. It’s just resting")))
          str_type,
    )
    ∷ ("DataBaseType", setting (text "SQLite") str_type)
    ∷ (
      "ClientPackages",
      setting (path (str_append (host.persistence) "/certs/clientPackages")) str_type,
    )
    ∷ ("CoreComponentsPath", setting (path (str_append (host.main) "/core")) str_type)
    ∷ ("CoreComponentsImportRoot", setting (text "FreeTAKServer.core") str_type)
    ∷ (
      "InternalComponentsPath",
      setting (path (str_append (host.main) "/components/core")) str_type,
    )
    ∷ ("InternalComponentsImportRoot", setting (text "FreeTAKServer.components.core") str_type)
    ∷ (
      "ExternalComponentsPath",
      setting (path (str_append (host.main) "/components/extended")) str_type,
    )
    ∷ ("ExternalComponentsImportRoot", setting (text "FreeTAKServer.components.extended") str_type)
    ∷ ("NumRoutingWorkers", setting (integer false 3) int_type)
    ∷ ("RoutingProxySubscriberPort", setting (integer false 19030) int_type)
    ∷ ("RoutingProxyPublisherPort", setting (integer false 19032) int_type)
    ∷ ("RoutingProxyRequestServerPort", setting (integer false 19031) int_type)
    ∷ ("RoutingProxySubscriberIP", setting (text "127.0.0.1") str_type)
    ∷ ("RoutingProxyPublisherIP", setting (text "127.0.0.1") str_type)
    ∷ ("RoutingProxyRequestServerIP", setting (text "127.0.0.1") str_type)
    ∷ ("IntegrationManagerPullerPort", setting (integer false 19033) int_type)
    ∷ ("IntegrationManagerPullerAddress", setting (text "127.0.0.1") str_type)
    ∷ ("IntegrationManagerPublisherPort", setting (integer false 19034) int_type)
    ∷ ("IntegrationManagerPublisherAddress", setting (text "127.0.0.1") str_type)
    ∷ ("yaml_path", setting (text (str_append (host.persistence) "/FTSConfig.yaml")) str_type)
    ∷ ("ip", setting (text (host.ip)) str_type)
    ∷ ("EmergencyRadius", setting (integer false 0) int_type)
    ∷ ("persistencePath", setting (text (host.persistence)) str_type)
    ∷ []
